-- ===== src/Uploads/Api.antt =====
-- vql/uploads/api.go: the interface of an uploader, as the buffer and the sparse upload use it.
use cloudvelo.Prelude.{ℕ, String, List, [], ◌∷◌, Option, none, ◌≡◌}

-- A range of `actions_proto.Index`.
pub record IndexRange : Type 0 where
  pub file_offset : ℕ
  pub original_offset : ℕ
  pub file_length : ℕ
  pub length : ℕ

abbrev pub Bytes : Type 0
Bytes = List ℕ

-- The operations, over the uploader's state. `none` is the nil error.
pub record CloudUploader {ℓ} (S : Type ℓ) : Type ℓ where
  pub put_whole : Bytes → S → S × Option String
  pub put : Bytes → S → S × Option String
  pub commit : S → S
  pub close : S → S × Option String
  pub set_index : List IndexRange → S → S

-- What `Read` returns beside the bytes.
pub data IoError : Type 0 where
  eof : IoError
  failure : String → IoError

-- An `io.Reader` over its state: asked for up to a number of bytes, the bytes and the error.
pub record Reader {ℓ} (R : Type ℓ) : Type ℓ where
  pub read : ℕ → R → R × (Bytes × Option IoError)

module _ {ℓ} {S : Type ℓ} where
  -- The parts were put in this order, all without an error.
  abbrev pub Sent : CloudUploader S → S → List Bytes → S → Type ℓ
  Sent up s [] end = s ≡ end
  Sent up s (part ∷ parts) end = ((up.put part s).1 ≡ none) × Sent up (up.put part s).0 parts end
