-- ===== src/Workflows/Webhooks.antt =====
-- The delivery of webhooks: deliverWorkflowWebhook (backend/internal/gateway/router.go) with
-- UpdateWebhookDeliveryResult (backend/internal/storage/store.go). The signature, the pauses and
-- the cut of long bodies are left out, and an update that fails is only logged.
use ai_aggregator.Prelude.{
  ℕ, zero, suc, ◌+◌, ◌-◌, ◌≤◌, ◌<◌, ◌≡◌, refl, sym, ◌⊎◌, inl, inr, Bool, true, false, ◌&&◌, String,
  List, [], ◌∷◌, ◌++◌, if◌then◌else◌, leb, ltb, arith, lt→ltb, Bool-cases,
}
use ai_aggregator.Prelude.Int.{ℤ, pos, negsuc}

-- What an attempt meets: http.NewRequest fails, the client fails, or the server answers.
pub data Post : Type 0 where
  bad_request : (message : String) → Post
  unreachable : (message : String) → Post
  answered : (status : ℕ) (body : String) → Post

-- lastStatus, lastBody and lastErr.
pub record Last : Type 0 where
  pub status : ℕ
  pub body : String
  pub error_message : String

abbrev pub nothing_yet : Last
nothing_yet = record { status = 0; body = ""; error_message = "" }

-- An update of the row of webhook_deliveries.
pub record Update : Type 0 where
  pub status : String
  pub response_status : ℕ
  pub attempt_count : ℕ
  pub response_body : String
  pub error_message : String

abbrev pub update : String → ℕ → Last → Update
update status attempt last = record {
  status = status;
  response_status = last.status;
  attempt_count = attempt;
  response_body = last.body;
  error_message = last.error_message;
}

abbrev pub is_success : ℕ → Bool
is_success status = leb 200 status && ltb status 300

-- maxAttempts
abbrev pub max_attempts : ℤ → ℕ
max_attempts (pos zero) = 3
max_attempts (pos (suc n)) = suc n
max_attempts _ = 3

module _ (error_of : ℕ → String) (post : ℕ → Post) where
  -- What an attempt that is no success leaves in the variables; `error_of` is the text of
  -- "webhook returned HTTP %d".
  abbrev pub note_post : Post → Last → Last
  note_post (bad_request m) last = record last { error_message = m }
  note_post (unreachable m) last = record last { error_message = m }
  note_post (answered status body) last = record {
    status = status;
    body = body;
    error_message = error_of status;
  }

  abbrev pub prepend : List Update → List Update × ℕ → List Update × ℕ
  prepend us (rest, sent) = (us ++ rest, suc sent)

  -- The rest of the loop's body after an attempt, given what the later attempts do. The last of
  -- `maximum` attempts leaves no update "retrying".
  abbrev pub retry_update : (maximum attempt : ℕ) → Last → List Update
  retry_update maximum attempt last =
      if ltb attempt maximum then update "retrying" attempt last ∷ [] else []

  abbrev pub after_post : (maximum attempt : ℕ) → Last → Post → List Update × ℕ → List Update × ℕ
  after_post maximum attempt last (bad_request m) later =
      (update "failed" maximum (note_post (bad_request m) last) ∷ [], 0)
  after_post maximum attempt last (unreachable m) later =
      prepend (retry_update maximum attempt (note_post (unreachable m) last)) later
  after_post maximum attempt last (answered status body) later =
      if is_success status
      then (
        update "delivered" attempt (record { status = status; body = body; error_message = "" })
            ∷ [],
        1,
      )
      else prepend (retry_update maximum attempt (note_post (answered status body) last)) later

  -- The loop, with the attempts left and the updates and requests that it makes.
  unfoldable pub deliver_from : (maximum attempt left : ℕ) → Last → List Update × ℕ
  deliver_from maximum attempt zero last = (update "failed" maximum last ∷ [], 0)
  deliver_from maximum attempt (suc left) last =
      let p = post attempt in
      let later = deliver_from maximum (suc attempt) left (note_post p last) in
      after_post maximum attempt last p later

  -- deliverWorkflowWebhook, for a delivery that was recorded.
  unfoldable pub deliver_workflow_webhook : ℤ → List Update × ℕ
  unfolding deliver_from
  deliver_workflow_webhook limit =
      deliver_from (max_attempts limit) 1 (max_attempts limit) nothing_yet

  -- An attempt after which the loop goes on.
  pub data IsRetried : Post → Type 0 where
    lost : (m : String) → IsRetried (unreachable m)
    rejected :
        (status : ℕ) (body : String) → is_success status ≡ false → IsRetried (answered status body)

  -- Attempts after which it goes on, from one attempt and as many as a number.
  pub data Retried : ℕ → ℕ → Type 0 where
    none_made : {a : ℕ} → Retried a 0
    one_more : {a n : ℕ} → IsRetried (post a) → Retried (suc a) n → Retried a (suc n)

  -- The variables after attempts, and the updates of attempts that others follow.
  abbrev pub last_of : ℕ → ℕ → Last → Last
  last_of a zero last = last
  last_of a (suc n) last = last_of (suc a) n (note_post (post a) last)

  abbrev pub retries : ℕ → ℕ → Last → List Update
  retries a zero last = []
  retries a (suc n) last =
      update "retrying" a (note_post (post a) last) ∷ retries (suc a) n (note_post (post a) last)

  -- How the delivery ends, for at most `suc n` attempts from the attempt `a`: the updates in order
  -- and the number of requests sent.
  pub data IsDelivery (maximum a n : ℕ) (last : Last) : List Update × ℕ → Type 0 where
    delivered :
        (k status : ℕ) (body : String)
        → k ≤ n
        → Retried a k
        → post (a + k) ≡ answered status body
        → is_success status ≡ true
        → IsDelivery maximum a n last (
          retries a k last
              ++ update "delivered"
                  (a + k)
                  (record { status = status; body = body; error_message = "" })
                ∷ [],
          suc k,
        )
    given_up :
        (k : ℕ) (m : String)
        → k ≤ n
        → Retried a k
        → post (a + k) ≡ bad_request m
        → IsDelivery maximum a n last (
          retries a k last
              ++ update "failed" maximum (note_post (bad_request m) (last_of a k last)) ∷ [],
          k,
        )
    exhausted :
        Retried a (suc n)
        → IsDelivery maximum a n last
            (retries a n last ++ update "failed" maximum (last_of a (suc n) last) ∷ [], suc n)

  post-cases :
      (p : Post)
      → ((m : String) × (p ≡ bad_request m))
        ⊎ ((status : ℕ) × (body : String) × (p ≡ answered status body) × (is_success status ≡ true))
        ⊎ IsRetried p
  post-cases (bad_request m) = inl (m, refl)
  post-cases (unreachable m) = inr (inr (lost m))
  post-cases (answered status body) = elim (Bool-cases (is_success status)) [
    | inl e ↦ inr (inl (status, body, refl, e))
    | inr e ↦ inr (inr (rejected status body e))
  ]

  shift : (a k : ℕ) → a + suc k ≡ suc a + k
  shift a k = omega arith

  -- One more retry in front of a delivery.
  after_retry :
      (maximum a n : ℕ) (last : Last) (out : List Update × ℕ)
      → IsRetried (post a)
      → IsDelivery maximum (suc a) n (note_post (post a) last) out
      → IsDelivery maximum a
          (suc n)
          last
          (prepend (update "retrying" a (note_post (post a) last) ∷ []) out)
  after_retry maximum a n last _ again (delivered k status body le made e s) =
      rw (sym (shift a k))
        (delivered (suc k) status body (omega arith) (one_more again made) (rw (shift a k) e) s)
  after_retry maximum a n last _ again (given_up k m le made e) =
      given_up (suc k) m (omega arith) (one_more again made) (rw (shift a k) e)
  after_retry maximum a n last _ again (exhausted made) = exhausted (one_more again made)

  add_zero : (a : ℕ) → a + 0 ≡ a
  add_zero a = omega arith

  -- The attempt `a` decides at once.
  refused :
      (maximum a n : ℕ) (last : Last) (m : String) (later : List Update × ℕ)
      → post a ≡ bad_request m
      → IsDelivery maximum a n last (after_post maximum a last (bad_request m) later)
  refused maximum a n last m later e = given_up 0 m (omega arith) none_made (rw (add_zero a) e)

  renumber :
      (maximum a n : ℕ) (last : Last) (status : ℕ) (body : String) (b c : ℕ)
      → b ≡ c
      → IsDelivery maximum a n last (
        update "delivered" c (record { status = status; body = body; error_message = "" }) ∷ [],
        1,
      )
      → IsDelivery maximum a n last (
        update "delivered" b (record { status = status; body = body; error_message = "" }) ∷ [],
        1,
      )
  renumber maximum a n last status body b c e d = rw e d

  accepted :
      (maximum a n : ℕ) (last : Last) (status : ℕ) (body : String) (later : List Update × ℕ)
      → post a ≡ answered status body
      → is_success status ≡ true
      → IsDelivery maximum a n last (after_post maximum a last (answered status body) later)
  accepted maximum a n last status body later e s =
      let at : post (a + 0) ≡ answered status body = rw (add_zero a) e in
      rw s (
        renumber maximum a n last status body a (a + 0) (sym (add_zero a))
          (delivered 0 status body (omega arith) none_made at s))

  retried :
      (maximum a : ℕ) (last : Last) (p : Post) (later : List Update × ℕ)
      → IsRetried p
      → after_post maximum a last p later
        ≡ prepend (retry_update maximum a (note_post p last)) later
  retried maximum a last _ later (lost m) = refl
  retried maximum a last _ later (rejected status body e) = rw e refl

  retry_update_before :
      (maximum a : ℕ) (last : Last)
      → a < maximum
      → retry_update maximum a last ≡ update "retrying" a last ∷ []
  retry_update_before maximum a last h = rw (lt→ltb a maximum h) refl

  retry_update_last : (maximum a : ℕ) (last : Last) → a ≡ maximum → retry_update maximum a last ≡ []
  retry_update_last maximum a last h = ground arith

  -- A retry, when `n` more attempts may follow.
  retry-IsDelivery :
      (maximum n a : ℕ) (last : Last) (later : List Update × ℕ)
      → a < maximum
      → IsRetried (post a)
      → IsDelivery maximum (suc a) n (note_post (post a) last) later
      → IsDelivery maximum a (suc n) last (after_post maximum a last (post a) later)
  retry-IsDelivery maximum n a last later h again rest =
      rw
        (
          retried maximum a last (post a) later again,
          retry_update_before maximum a (note_post (post a) last) h,
        )
        (after_retry maximum a n last later again rest)

  exhausted_here :
      (a : ℕ) (last : Last) (maximum : ℕ)
      → a ≡ maximum
      → IsRetried (post a)
      → IsDelivery maximum a 0 last (
          after_post maximum a last
            (post a)
            (update "failed" maximum (note_post (post a) last) ∷ [], 0))
  exhausted_here a last maximum e again =
      rw
        (
          retried maximum a last (post a)
              (update "failed" maximum (note_post (post a) last) ∷ [], 0) again,
          retry_update_last maximum a (note_post (post a) last) e,
        )
        (exhausted (one_more again none_made))

  pub deliver_from-IsDelivery :
      (maximum n a : ℕ) (last : Last)
      → a + n ≡ maximum
      → IsDelivery maximum a n last (deliver_from maximum a (suc n) last)
  unfolding deliver_from
  deliver_from-IsDelivery maximum zero a last top = elim (post-cases (post a)) [
    | inl (m, e) ↦ rw e (refused maximum a 0 last m ([], 0) e)
    | inr (inl (status, body, e, s)) ↦ rw e (accepted maximum a 0 last status body _ e s)
    | inr (inr again) ↦ exhausted_here a last maximum (omega arith) again
  ]
  deliver_from-IsDelivery maximum (suc n) a last top = elim (post-cases (post a)) [
    | inl (m, e) ↦ rw e (refused maximum a (suc n) last m ([], 0) e)
    | inr (inl (status, body, e, s)) ↦ rw e (accepted maximum a (suc n) last status body _ e s)
    | inr (inr again) ↦
        retry-IsDelivery maximum n a last _ (omega arith) again
          (deliver_from-IsDelivery maximum n (suc a) (note_post (post a) last) (omega arith))
  ]

  max_attempts_pos : (limit : ℤ) → suc (max_attempts limit - 1) ≡ max_attempts limit
  max_attempts_pos (pos zero) = refl
  max_attempts_pos (pos (suc n)) = omega arith
  max_attempts_pos (negsuc n) = refl

  from_first :
      (maximum k : ℕ)
      → suc k ≡ maximum
      → IsDelivery maximum 1 k nothing_yet (deliver_from maximum 1 maximum nothing_yet)
  from_first maximum k e =
      rw (sym e) (deliver_from-IsDelivery (suc k) k 1 nothing_yet (omega arith))

  -- A delivery ends after at most its largest number of attempts, which is 3 where the webhook has
  -- none that is positive. It is delivered at the first answer between 200 and 299, and failed at
  -- a request that cannot be made or after the last attempt. Every lost or rejected attempt before
  -- leaves one update "retrying" with its number.
  pub deliver_workflow_webhook-IsDelivery :
      (limit : ℤ)
      → IsDelivery
          (max_attempts limit)
          1
          (max_attempts limit - 1)
          nothing_yet
          (deliver_workflow_webhook limit)
  unfolding deliver_workflow_webhook
  deliver_workflow_webhook-IsDelivery limit =
      from_first (max_attempts limit) (max_attempts limit - 1) (max_attempts_pos limit)
