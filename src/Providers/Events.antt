-- ===== src/Providers/Events.antt =====
-- Server-sent events: the goroutine of DashScopeAdapter.ChatCompletionStream
-- (backend/internal/provider/dashscope.go), which reads them, and the writer of RelayStream
-- (backend/internal/stream/proxy.go), where each write succeeds. A text is a list of its lines.
-- Lines above the scanner's megabyte and a cancelled context are left out.
use Prim.Native.String
use Prim.Native.Char.{code}
use ai_aggregator.Prelude.{
  Bool, true, false, ◌||◌, String, Option, none, some, List, [], ◌∷◌, ◌++◌, if◌then◌else◌, str_eq,
  ◌==◌,
}
use ai_aggregator.Providers.{StreamChunk}

-- strings.TrimPrefix(s, p), for a text that has the prefix; `none` for another.
unfoldable pub strip_text : (p s : String) → Option String
strip_text String.[] s = some s
strip_text (String.◌∷◌ c p) String.[] = none
strip_text (String.◌∷◌ c p) (String.◌∷◌ d s) = if code c == code d then strip_text p s else none

-- strings.HasPrefix(line, ":")
abbrev pub is_comment : String → Bool
is_comment line = elim (strip_text ":" line) [ none ↦ false | some _ ↦ true ]

-- json.Marshal and json.Unmarshal of a chunk, `none` for an error.
pub record Codec : Type 0 where
  pub marshal : StreamChunk → Option String
  pub unmarshal : String → Option StreamChunk

module _ (codec : Codec) where
  -- A chunk that was read, before those that follow.
  abbrev pub note_chunk : Option StreamChunk → List StreamChunk → List StreamChunk
  note_chunk none rest = rest
  note_chunk (some chunk) rest = chunk ∷ rest

  -- What follows the prefix of a line: the end of the stream, or a chunk.
  abbrev pub read_data : String → List StreamChunk → List StreamChunk
  read_data text rest = if str_eq text "[DONE]" then [] else note_chunk (codec.unmarshal text) rest

  abbrev pub read_line : Option String → List StreamChunk → List StreamChunk
  read_line none rest = rest
  read_line (some text) rest = read_data text rest

  -- The loop of ChatCompletionStream's goroutine: the chunks that it sends.
  unfoldable pub read_events : List String → List StreamChunk
  unfolding strip_text
  read_events [] = []
  read_events (line ∷ lines) =
      let rest = read_events lines in
      if str_eq line "" || is_comment line then rest else read_line (strip_text "data: " line) rest

  -- The lines that RelayStream's writer writes for a chunk: one that cannot be marshalled is
  -- skipped.
  abbrev pub event_lines : Option String → List String
  event_lines none = []
  event_lines (some text) = String.◌++◌ "data: " text ∷ "" ∷ []

  -- The lines of a whole stream.
  unfoldable pub relay_lines : List StreamChunk → List String
  relay_lines [] = "data: [DONE]" ∷ "" ∷ []
  relay_lines (chunk ∷ chunks) = event_lines (codec.marshal chunk) ++ relay_lines chunks
