-- ===== src/Accounts/Login.antt =====
-- Login after registration (userRegister and userLogin in
-- backend/internal/gateway/router.go).
use ai_aggregator.Prelude.{
  ◌≤◌, ◌≡◌, refl, ◌⊎◌, inl, inr, true, false, String, Option, none, some, List, [], ◌∷◌, ◌++◌,
  if◌then◌else◌, if-cases, str_eq, eq_iff, ltb, arith,
}
use ai_aggregator.Http.{Ctx, Outcome}
use ai_aggregator.Billing.{grant_credit, set_balance}
use ai_aggregator.Accounts.{User, World, Calls}
use ai_aggregator.Accounts.Registration.{
  RegisterRequest, new_user, has_email, find_user, is_taken, initial_credits, create_user,
  get_user_by_email, signed_in, welcome, with_password, user_register, user_login,
}

-- The user is found by the email, last among the rows, since no earlier row has it.
find_user-append :
    (email username : String) (users : List User) (u : User)
    → u.email ≡ email
    → is_taken email username users ≡ false
    → find_user (has_email email) (users ++ u ∷ []) ≡ some u
find_user-append email username [] u e free = rw ((eq_iff u.email email).1 e) refl
find_user-append email username (v ∷ users) u e free =
    let others : is_taken email username users ≡ false = second free in
    rw (first free) (find_user-append email username users u e others)
  where
    first : is_taken email username (v ∷ users) ≡ false → str_eq v.email email ≡ false
    first h = ground arith

    second : is_taken email username (v ∷ users) ≡ false → is_taken email username users ≡ false
    second h = ground arith

-- What userRegister does: nothing but an error; or a new user without rights, who can log in with
-- the password from then on. In that case the answer is 201 unless no token could be made.
pub data IsRegistered (calls : Calls) (w : World)
    : Option RegisterRequest → Outcome World → Type 0 where
  refused :
      (req : Option RegisterRequest) (o : Outcome World)
      → 400 ≤ o.ctx.status
      → o.world ≡ w
      → IsRegistered calls w req o
  registered :
      (req : RegisterRequest) (u : User) (o : Outcome World)
      → (u.id ≡ calls.new_id) × (u.email ≡ req.email) × (u.role ≡ "user")
      → o.world.users ≡ w.users ++ u ∷ []
      → (o.ctx.status ≡ 201) ⊎ (calls.generate_jwt u.id "user" ≡ none)
      → ((c : Ctx)
          → user_login calls
              (some (record { email = req.email; password = req.password }))
              c
              o.world
            ≡ signed_in calls 200 u (calls.generate_jwt u.id "user") c o.world)
      → IsRegistered calls w (some req) o

module _ (calls : Calls) (works : calls.query_fails ≡ false)
    (bcrypt_law : (password hash : String)
      → calls.bcrypt_hash password ≡ some hash
      → calls.bcrypt_matches hash password ≡ true) where
  logs_in :
      (email password : String) (u : User) (w : World) (c : Ctx)
      → str_eq email "" ≡ false
      → str_eq password "" ≡ false
      → find_user (has_email email) w.users ≡ some u
      → calls.bcrypt_matches u.password_hash password ≡ true
      → user_login calls (some (record { email = email; password = password })) c w
        ≡ signed_in calls 200 u (calls.generate_jwt u.id u.role) c w
  unfolding user_login get_user_by_email
  logs_in email password u w c e p found matches = rw (e, p, works, found, matches) refl

  token-IsRegistered :
      (req : RegisterRequest) (u : User) (w : World) (c : Ctx) (after : World)
      → (u.id ≡ calls.new_id) × (u.email ≡ req.email) × (u.role ≡ "user")
      → after.users ≡ w.users ++ u ∷ []
      → ((d : Ctx)
          → user_login calls (some (record { email = req.email; password = req.password })) d after
            ≡ signed_in calls 200 u (calls.generate_jwt u.id "user") d after)
      → (token : Option String) → calls.generate_jwt u.id "user" ≡ token
      → IsRegistered calls w (some req) (signed_in calls 201 u token c after)
  token-IsRegistered req u w c after is_u users login none e =
      registered req u _ is_u users (inr e) login
  token-IsRegistered req u w c after is_u users login (some token) e =
      registered req u _ is_u users (inl refl) login

  welcome-IsRegistered :
      (req : RegisterRequest) (username hash : String) (w : World) (c : Ctx)
      → str_eq req.email "" ≡ false
      → str_eq req.password "" ≡ false
      → calls.bcrypt_hash req.password ≡ some hash
      → IsRegistered calls w
          (some req)
          (welcome calls (create_user calls req.email username hash w) c w)
  unfolding create_user
  welcome-IsRegistered req username hash w c e p hashed =
      if-cases (λ k. IsRegistered calls w (some req) (welcome calls k c w)) calls.user_insert_fails
        _ _ (λ _. refused (some req) _ (omega arith) refl)
        (λ _.
          if-cases (λ k. IsRegistered calls w (some req) (welcome calls k c w))
            (is_taken req.email username w.users) _ _ (λ _. refused (some req) _ (omega arith) refl)
            (λ free.
              token-IsRegistered req (new_user calls.new_id req.email username hash) w c
                (record w {
                  users = w.users ++ new_user calls.new_id req.email username hash ∷ [];
                  money =
                      grant_credit calls.faults calls.new_id initial_credits
                        (set_balance calls.new_id 0 w.money);
                })
                (refl, refl, refl) refl
                (λ d.
                  logs_in req.email req.password (new_user calls.new_id req.email username hash) _ d
                    e p
                    (find_user-append req.email username w.users
                      (new_user calls.new_id req.email username hash) refl free)
                    (bcrypt_law req.password hash hashed))
                (calls.generate_jwt calls.new_id "user") refl))

  with_password-IsRegistered :
      (req : RegisterRequest) (username : String) (w : World) (c : Ctx) (hashed : Option String)
      → str_eq req.email "" ≡ false
      → str_eq req.password "" ≡ false
      → calls.bcrypt_hash req.password ≡ hashed
      → IsRegistered calls w (some req) (with_password calls req.email username hashed c w)
  with_password-IsRegistered req username w c none e p h = refused (some req) _ (omega arith) refl
  with_password-IsRegistered req username w c (some hash) e p h =
      welcome-IsRegistered req username hash w c e p h

  -- Where bcrypt accepts a password for each hash that it made of it, and the store can be read, a
  -- registration either is answered with an error and changes nothing, or adds a user with the role
  -- "user", and every login with this email and password in the state that it leaves is answered
  -- with a token for that user and role, or with an error if none can be made.
  pub user_register-IsRegistered :
      (req : Option RegisterRequest) (w : World) (c : Ctx)
      → IsRegistered calls w req (user_register calls req c w)
  unfolding user_register
  user_register-IsRegistered none w c = refused none _ (omega arith) refl
  user_register-IsRegistered (some req) w c =
      if-cases (IsRegistered calls w (some req)) (str_eq req.email "") _ _
        (λ _. refused (some req) _ (omega arith) refl)
        (λ e.
          if-cases (IsRegistered calls w (some req)) (str_eq req.password "") _ _
            (λ _. refused (some req) _ (omega arith) refl)
            (λ p.
              if-cases (IsRegistered calls w (some req)) (ltb (calls.byte_length req.password) 8) _
                _ (λ _. refused (some req) _ (omega arith) refl)
                (λ _.
                  with_password-IsRegistered req
                    (if str_eq req.username "" then req.email else req.username) w c
                    (calls.bcrypt_hash req.password) e p refl)))
