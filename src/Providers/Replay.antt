-- ===== src/Providers/Replay.antt =====
-- A stream that is relayed and read again (RelayStream in backend/internal/stream/proxy.go and
-- ChatCompletionStream in backend/internal/provider/dashscope.go).
use Prim.Native.String
use Prim.Native.Char.{code}
use text.Mathlib.TextLemmas.{nil-append, cons-append, append-nil, append-eq-nil_iff}
use ai_aggregator.Prelude.{
  ◌≡◌, refl, ◌∙◌, ◌≢◌, inl, inr, Bool-cases, false, String, Option, none, some, List, [], ◌∷◌, ◌++◌,
  str_eq, eq_iff, ==_iff, arith, All,
}
use ai_aggregator.Providers.{
  Content, plain, parts, other, ChatMessage, ChatRequest, Usage, Choice, ChatResponse, StreamChunk,
  Result, ok, error,
}
use ai_aggregator.Providers.Anthropic.{
  AnthropicAdapter, first_content, streamed, chat_completion, chat_completion_stream,
}
use ai_aggregator.Providers.Events.{
  Codec, strip_text, is_comment, read_data, read_events, event_lines, relay_lines,
}

strip_text-append : (p s : String) → strip_text p (String.◌++◌ p s) ≡ some s
unfolding strip_text
strip_text-append String.[] s = rw nil-append refl
strip_text-append (String.◌∷◌ c p) s =
    rw (cons-append c p s, (==_iff (code c) (code c)).1 refl) (strip_text-append p s)

data-ne : ◌≢◌ {A = String} "data: " ""
data-ne = ground (arith, eq_iff "data: " "")

data-ne_nil : (text : String) → str_eq (String.◌++◌ "data: " text) "" ≡ false
data-ne_nil text = elim (Bool-cases (str_eq (String.◌++◌ "data: " text) "")) [
  | inl same ↦ absurd (data-ne ((append-eq-nil_iff.0 ((eq_iff _ _).0 same)).0))
  | inr apart ↦ apart
]

data-is_no_comment : (text : String) → is_comment (String.◌++◌ "data: " text) ≡ false
unfolding strip_text
data-is_no_comment text = rw cons-append refl

module _ (codec : Codec) where
  abbrev keep : Option String → StreamChunk → List StreamChunk → List StreamChunk
  keep none chunk rest = rest
  keep (some text) chunk rest = chunk ∷ rest

  -- The chunks that can be marshalled.
  abbrev pub sendable : List StreamChunk → List StreamChunk
  sendable [] = []
  sendable (chunk ∷ chunks) = keep (codec.marshal chunk) chunk (sendable chunks)

  read_event :
      (text : String) (lines : List String)
      → read_events codec (String.◌++◌ "data: " text ∷ "" ∷ lines)
        ≡ read_data codec text (read_events codec lines)
  unfolding read_events
  read_event text lines =
      rw (data-ne_nil text, data-is_no_comment text, strip_text-append "data: " text) refl

  read_one :
      (chunk : StreamChunk) (o : Option String) (lines more : List String) (rest : List StreamChunk)
      → ((text : String)
          → o ≡ some text
          → (codec.unmarshal text ≡ some chunk) × (str_eq text "[DONE]" ≡ false))
      → read_events codec (lines ++ more) ≡ rest
      → read_events codec ((event_lines codec o ++ lines) ++ more) ≡ keep o chunk rest
  read_one chunk none lines more rest law e = e
  read_one chunk (some text) lines more rest law e =
      let (back, open_end) = law text refl in
      rw (read_event text (lines ++ more), e, open_end, back) refl

  -- The chunk is read back as it was, where it is marshalled, and its text does not end a stream.
  abbrev pub IsReread : StreamChunk → Type 0
  IsReread chunk =
      (text : String)
      → codec.marshal chunk ≡ some text
      → (codec.unmarshal text ≡ some chunk) × (str_eq text "[DONE]" ≡ false)

  -- For a stream each of whose chunks, where it is marshalled, is read back as it was and has not
  -- the text that ends a stream, as chunks with plain texts are, the lines that RelayStream writes
  -- are read as the chunks of the stream that could be marshalled, in their order, whatever lines
  -- come after them.
  pub read-relay :
      (chunks : List StreamChunk) (more : List String)
      → All IsReread chunks
      → read_events codec (relay_lines codec chunks ++ more) ≡ sendable chunks
  unfolding read_events relay_lines
  read-relay [] more law = refl
  read-relay (chunk ∷ chunks) more (back, law) =
      read_one chunk (codec.marshal chunk) (relay_lines codec chunks) more (sendable chunks) back
        (read-relay chunks more law)

-- The text of a content, and what a client that joins the deltas of a stream makes of its chunks.
abbrev pub content_text : Content → String
content_text (plain s) = s
content_text (parts _) = ""
content_text (other _) = ""

abbrev message_text : Option ChatMessage → String
message_text none = ""
message_text (some m) = content_text m.content

abbrev delta_text : List Choice → String
delta_text [] = ""
delta_text (c ∷ cs) = message_text c.delta

abbrev pub joined : List StreamChunk → String
joined [] = ""
joined (chunk ∷ chunks) = String.◌++◌ (delta_text chunk.choices) (joined chunks)

abbrev pub answer_text : List Choice → String
answer_text [] = ""
answer_text (c ∷ cs) = message_text c.message

-- The usage and the reason of the last chunks that have one.
abbrev or_else {ℓ} : {A : Type ℓ} → Option A → Option A → Option A
or_else none old = old
or_else (some new) old = some new

abbrev reason_of : List Choice → Option String
reason_of [] = none
reason_of (c ∷ cs) = c.finish_reason

abbrev pub final_usage : List StreamChunk → Option Usage → Option Usage
final_usage [] u = u
final_usage (chunk ∷ chunks) u = final_usage chunks (or_else chunk.usage u)

abbrev pub final_reason : List StreamChunk → Option String → Option String
final_reason [] r = r
final_reason (chunk ∷ chunks) r = final_reason chunks (or_else (reason_of chunk.choices) r)

-- A stream beside the answer without streaming: the same error, or the same text and usage under
-- the reason "stop".
pub data Streams : Result ChatResponse → Result (List StreamChunk) → Type 0 where
  both_fail : (message : String) → Streams (error message) (error message)
  both_answer :
      (resp : ChatResponse) (chunks : List StreamChunk)
      → joined chunks ≡ answer_text resp.choices
      → final_usage chunks none ≡ resp.usage
      → final_reason chunks none ≡ some "stop"
      → Streams (ok resp) (ok chunks)

module _ (a : AnthropicAdapter) where
  first_content-text : (choices : List Choice) → first_content a choices ≡ answer_text choices
  first_content-text [] = refl
  first_content-text (c ∷ cs) = by_message c.message
    where
      by_message :
          (m : Option ChatMessage)
          → (elim m [
            | none ↦ ""
            | some m ↦ elim m.content [ plain s ↦ s | parts _ ↦ "" | other _ ↦ "" ]
          ])
            ≡ message_text m
      by_message none = refl
      by_message (some m) = by_content m.content
        where
          by_content :
              (k : Content)
              → (elim k [ plain s ↦ s | parts _ ↦ "" | other _ ↦ "" ]) ≡ content_text k
          by_content (plain s) = refl
          by_content (parts ps) = refl
          by_content (other v) = refl

  or_else-none : (u : Option Usage) → or_else u none ≡ u
  or_else-none none = refl
  or_else-none (some u) = refl

  from_reply : (r : Result ChatResponse) → Streams r (streamed a r)
  from_reply (error m) = both_fail m
  from_reply (ok resp) =
      both_answer resp _ (append-nil _ ∙ first_content-text resp.choices) (or_else-none resp.usage)
        refl

  -- A stream of the Anthropic adapter fails exactly where the answer to the same request without
  -- streaming fails, with the same error. Otherwise its deltas, joined, are the text of that answer,
  -- its last usage is that answer's, and its last reason is "stop", whatever the answer's was.
  pub chat_completion_stream-Streams :
      (req : ChatRequest)
      → Streams (chat_completion a (record req { stream = false })) (chat_completion_stream a req)
  unfolding chat_completion_stream
  chat_completion_stream-Streams req =
      from_reply (chat_completion a (record req { stream = false }))
