-- ===== src/Guardrails/Masking.antt =====
-- What masking reaches (maskChatRequest and chatRequestTexts in backend/internal/gateway/router.go).
use ai_aggregator.Prelude.{◌≡◌, refl, sym, ◌∙◌, ap, Option, none, some, List, [], ◌∷◌, ◌++◌, map}
use ai_aggregator.Prelude.Json.{
  Json, null, bool, num, str, arr, obj, Items, nil, cons, Fields, end, field, get,
}
use ai_aggregator.Guardrails.{
  Message, Patterns, text_of_part, texts_of_parts, texts_of_content, chat_request_texts, put,
  mask_sensitive_text, mask_part, mask_parts, mask_content, mask_chat_request,
}

map-append : {A B : Type 0} (f : A → B) (xs ys : List A) → map f (xs ++ ys) ≡ map f xs ++ map f ys
map-append f [] ys = refl
map-append f (x ∷ xs) ys = ap (λ zs. f x ∷ zs) (map-append f xs ys)

get-put : (v : Json) (fs : Fields) → get "text" (put "text" v fs) ≡ some v
get-put v end = refl
get-put v (field j w fs) = rw (get-put v fs) refl

module _ (pats : Patterns) where
  text_of-obj :
      (fs : Fields) (o : Option Json)
      → get "text" fs ≡ o
      → text_of_part (mask_part pats (obj fs))
        ≡ map (mask_sensitive_text pats) (text_of_part (obj fs))
  text_of-obj fs none h = rw (h, mask_part, text_of_part, h) refl
  text_of-obj fs (some (str s)) h =
      rw (h, mask_part, text_of_part)
        (rw (get-put (str (mask_sensitive_text pats s)) fs, text_of_part) refl)
  text_of-obj fs (some null) h = rw (h, mask_part, text_of_part, h) refl
  text_of-obj fs (some (bool b)) h = rw (h, mask_part, text_of_part, h) refl
  text_of-obj fs (some (num n)) h = rw (h, mask_part, text_of_part, h) refl
  text_of-obj fs (some (arr vs)) h = rw (h, mask_part, text_of_part, h) refl
  text_of-obj fs (some (obj gs)) h = rw (h, mask_part, text_of_part, h) refl

  text_of-mask :
      (part : Json)
      → text_of_part (mask_part pats part) ≡ map (mask_sensitive_text pats) (text_of_part part)
  text_of-mask null = refl
  text_of-mask (bool b) = refl
  text_of-mask (num n) = refl
  text_of-mask (str s) = refl
  text_of-mask (arr vs) = refl
  text_of-mask (obj fs) = text_of-obj fs (get "text" fs) refl

  texts_of_parts-mask :
      (parts : Items)
      → texts_of_parts (mask_parts pats parts)
        ≡ map (mask_sensitive_text pats) (texts_of_parts parts)
  texts_of_parts-mask nil = refl
  texts_of_parts-mask (cons part parts) =
      ap (λ xs. xs ++ texts_of_parts (mask_parts pats parts)) (text_of-mask part)
      ∙ ap (λ xs. map (mask_sensitive_text pats) (text_of_part part) ++ xs)
          (texts_of_parts-mask parts)
      ∙ sym (map-append (mask_sensitive_text pats) (text_of_part part) (texts_of_parts parts))

  texts_of-mask :
      (content : Json)
      → texts_of_content (mask_content pats content)
        ≡ map (mask_sensitive_text pats) (texts_of_content content)
  texts_of-mask null = refl
  texts_of-mask (bool b) = refl
  texts_of-mask (num n) = refl
  texts_of-mask (str s) = refl
  texts_of-mask (arr parts) = texts_of_parts-mask parts
  texts_of-mask (obj fs) = refl

  -- Masking reaches every text that the detection reads, and nothing else of them: the texts of
  -- the masked request are the masked texts of the request, in order.
  pub chat_request_texts-mask :
      (ms : List Message)
      → chat_request_texts (mask_chat_request pats ms)
        ≡ map (mask_sensitive_text pats) (chat_request_texts ms)
  unfolding chat_request_texts mask_chat_request
  chat_request_texts-mask [] = refl
  chat_request_texts-mask (m ∷ ms) =
      ap (λ xs. xs ++ chat_request_texts (mask_chat_request pats ms)) (texts_of-mask m.content)
      ∙ ap (λ xs. map (mask_sensitive_text pats) (texts_of_content m.content) ++ xs)
          (chat_request_texts-mask ms)
      ∙ sym (
          map-append (mask_sensitive_text pats) (texts_of_content m.content)
            (chat_request_texts ms))
