-- ===== src/Node/Request.antt =====
-- The JSON of a control message: the object that the `send` command builds
-- (crates/dldsr-node/src/main.rs), and `ControlSendRequest`, which a daemon reads from it
-- (crates/dldsr-node/src/daemon.rs). The text of a JSON document is a parameter.
use dl_dsr_rs.Base.{
  ℕ, ◌<◌, ◌^◌, ◌≡◌, ◌≢◌, ◌⊎◌, List, [], ◌∷◌, Option, none, some, Result, ok, err, ltb, true, false,
  arith, if◌then◌else◌, ◌>>=◌,
}
use dl_dsr_rs.Core.Socket.{Text, bytes, text_beq}
use dl_dsr_rs.Node.Daemon.{ControlSendRequest}

-- A value of an object: an unsigned integer, a string, or any other value by its text.
pub data JsonValue : Type 0 where
  number : ℕ → JsonValue
  string : Text → JsonValue
  other_value : Text → JsonValue

pub data Document : Type 0 where
  object : List (Text × JsonValue) → Document
  array : List JsonValue → Document
  scalar : JsonValue → Document

-- What the reader that `#[derive(Deserialize)]` makes complains about.
pub data Fault : Type 0 where
  missing_field : Text → Fault
  duplicate_field : Text → Fault
  invalid_value : (expected : Text) → JsonValue → Fault
  invalid_length : ℕ → Fault
  trailing_characters : Fault

-- `serde_json`: the text of a document, the document of a text, and the text of a fault. What is
-- written for an object of an unsigned 64-bit integer and a string under two keys is read as that
-- object, its members in one order or the other.
pub record Json : Type 0 where
  pub to_string : Document → List ℕ
  pub from_slice : List ℕ → Result Text Document
  pub describe : Fault → Text
  pub from_slice-to_string :
      (j k text : Text) (n : ℕ)
      → j ≢ k
      → n < 2 ^ 64
      → (from_slice (to_string (object ((j, number n) ∷ (k, string text) ∷ [])))
          ≡ ok (object ((j, number n) ∷ (k, string text) ∷ [])))
        ⊎ (from_slice (to_string (object ((j, number n) ∷ (k, string text) ∷ [])))
            ≡ ok (object ((k, string text) ∷ (j, number n) ∷ [])))

-- `json!({ "dst": dst, "payload": payload })`
abbrev pub request_json : ℕ → Text → Document
request_json dst payload =
    object ((bytes "dst", number dst) ∷ (bytes "payload", string payload) ∷ [])

-- `u32` and `String`
abbrev pub deserialize_u32 : JsonValue → Result Fault ℕ
deserialize_u32 (number n) =
    if ltb n (2 ^ 32) then ok n else err (invalid_value (bytes "u32") (number n))
deserialize_u32 (string text) = err (invalid_value (bytes "u32") (string text))
deserialize_u32 (other_value text) = err (invalid_value (bytes "u32") (other_value text))

abbrev pub deserialize_string : JsonValue → Result Fault Text
deserialize_string (string text) = ok text
deserialize_string (number n) = err (invalid_value (bytes "a string") (number n))
deserialize_string (other_value text) = err (invalid_value (bytes "a string") (other_value text))

-- The fields of an object, in the order of its members: a field that comes twice or does not come
-- is a fault, and a member under another key is passed over.
unfoldable pub read_fields :
    Option ℕ → Option Text → List (Text × JsonValue) → Result Fault ControlSendRequest
read_fields none payload [] = err (missing_field (bytes "dst"))
read_fields (some dst) none [] = err (missing_field (bytes "payload"))
read_fields (some dst) (some payload) [] = ok (record { dst = dst; payload = payload })
read_fields dst payload ((key, value) ∷ members) = elim (text_beq key (bytes "dst")) [
  | true ↦ elim dst [
    | some _ ↦ err (duplicate_field (bytes "dst"))
    | none ↦ do n ← deserialize_u32 value; read_fields (some n) payload members
  ]
  | false ↦ elim (text_beq key (bytes "payload")) [
    | true ↦ elim payload [
      | some _ ↦ err (duplicate_field (bytes "payload"))
      | none ↦ do text ← deserialize_string value; read_fields dst (some text) members
    ]
    | false ↦ read_fields dst payload members
  ]
]

-- The fields of an array, by position.
abbrev pub read_elements : List JsonValue → Result Fault ControlSendRequest
read_elements [] = err (invalid_length 0)
read_elements (a ∷ []) = do _ ← deserialize_u32 a; err (invalid_length 1)
read_elements (a ∷ b ∷ rest) = do
  dst ← deserialize_u32 a
  payload ← deserialize_string b
  elim rest [ [] ↦ ok (record { dst = dst; payload = payload }) | _ ∷ _ ↦ err trailing_characters ]

-- `#[derive(Deserialize)] struct ControlSendRequest`
unfoldable pub deserialize_request : Document → Result Fault ControlSendRequest
deserialize_request (object members) = read_fields none none members
deserialize_request (array elements) = read_elements elements
deserialize_request (scalar value) = err (invalid_value (bytes "struct ControlSendRequest") value)

-- What the reader makes of the object of the `send` command, in either order of its members.
pub deserialize_request-request_json :
    (dst : ℕ) (payload : Text)
    → dst < 2 ^ 32
    → (deserialize_request (request_json dst payload)
        ≡ ok (record { dst = dst; payload = payload }))
      × (deserialize_request
            (object ((bytes "payload", string payload) ∷ (bytes "dst", number dst) ∷ []))
          ≡ ok (record { dst = dst; payload = payload }))
unfolding deserialize_request read_fields
deserialize_request-request_json dst payload small = (ground (arith, small), ground (arith, small))
