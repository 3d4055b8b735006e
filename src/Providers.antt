-- ===== src/Providers.antt =====
-- The adapters of the providers: the data of backend/internal/provider/adapter.go and what the
-- adapters call. An HTTP exchange is a parameter, by its request; json.Marshal and json.Unmarshal
-- into the adapters' own structs are parameters too. Times and the constant "object" are left out.
pub mod Anthropic
pub mod DashScope
pub mod Tasks
pub mod Mock
pub mod Events
mod Replay
mod Tests
use Prim.Native.String
use ai_aggregator.Prelude.{
  ℕ, ◌≡◌, Bool, true, false, String, Option, none, some, List, [], ◌∷◌, if◌then◌else◌, str_eq,
}
use ai_aggregator.Prelude.Int.{ℤ}
use ai_aggregator.Prelude.Json.{Json}

-- ContentPart, without the image.
pub record Part : Type 0 where
  pub kind : String
  pub text : String

-- The interface{} of a content: a string, a []ContentPart, or any other value, such as the list
-- that json.Unmarshal makes of a JSON array.
pub data Content : Type 0 where
  plain : String → Content
  parts : List Part → Content
  other : Json → Content

pub record ChatMessage : Type 0 where
  pub role : String
  pub content : Content

-- ChatRequest, the fields that the adapters read.
pub record ChatRequest : Type 0 where
  pub model : String
  pub messages : List ChatMessage
  pub stream : Bool
  pub temperature : Option Json
  pub max_tokens : Option ℤ
  pub top_p : Option Json
  pub stop : Option Json

pub record Usage : Type 0 where
  pub prompt_tokens : ℤ
  pub completion_tokens : ℤ
  pub total_tokens : ℤ

pub record Choice : Type 0 where
  pub index : ℕ
  pub message : Option ChatMessage
  pub delta : Option ChatMessage
  pub finish_reason : Option String

pub record ChatResponse : Type 0 where
  pub id : String
  pub model : String
  pub choices : List Choice
  pub usage : Option Usage

pub record StreamChunk : Type 0 where
  pub id : String
  pub model : String
  pub choices : List Choice
  pub usage : Option Usage

-- A value or the text of an error.
pub data Result (A : Type 0) : Type 0 where
  ok : A → Result A
  error : (message : String) → Result A

-- An HTTP request, and what comes of it: http.NewRequest fails, the client fails, or the server
-- answers.
pub record HttpRequest : Type 0 where
  pub method : String
  pub url : String
  pub headers : List (String × String)
  pub body : String

pub data HttpResponse : Type 0 where
  bad_request : (message : String) → HttpResponse
  unreachable : (message : String) → HttpResponse
  answered : (status : ℕ) (content_type body : String) → HttpResponse

-- A text with "%w" or "%s" at its end.
abbrev pub prefixed : String → String → String
prefixed text message = String.◌++◌ text message

-- ErrUnsupportedModality.Error
abbrev pub unsupported : {A : Type 0} → (provider op : String) → Result A
unsupported provider op =
    error (String.◌++◌ "provider " (String.◌++◌ provider (String.◌++◌ " does not support " op)))
