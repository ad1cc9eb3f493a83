-- ===== src/UploadServer/Retries.antt =====
-- The tries of `uploadPart`.
use cloudvelo.Prelude.{
  ℕ, zero, suc, String, List, [], ◌∷◌, ◌++◌, ◌≤◌, ◌<◌, Option, ◌≡◌, ◌⊎◌, drop, Result, ok, err,
}
use cloudvelo.UploadServer.{S3, S3Call, upload_part, UploadPartInput, next_input}
use cloudvelo.Uploads.Api.{Bytes}

-- The calls and the input of the part before the try after so many.
abbrev pub before_try :
    S3 → Bytes → ℕ → List S3Call → UploadPartInput → List S3Call × UploadPartInput
before_try s3 data_ zero calls input = (calls, input)
before_try s3 data_ (suc k) calls input =
    before_try s3 data_ k (calls ++ upload_part input ∷ []) (next_input s3 data_ calls input)

-- The answer of the try after so many.
abbrev pub answer_of : S3 → Bytes → ℕ → List S3Call → UploadPartInput → Result (Option String)
answer_of s3 data_ k calls input =
    let at = before_try s3 data_ k calls input in (s3.put_part at.0 at.1).1

-- The input of another try of the part: all but the body is the same, and the body is the end of the
-- bytes from where the try before left their reader.
abbrev pub IsLater : Bytes → UploadPartInput → UploadPartInput → Type 0
IsLater data_ input later = (position : ℕ) × (later ≡ record input { body = drop position data_ })

-- The part was tried `failures` times without success and then once more, of which this is the
-- answer; there are no more than `limit` failures before it, and as many where it is one too.
pub record IsRetried (s3 : S3) (data_ : Bytes) (input : UploadPartInput) (limit : ℕ)
    (calls : List S3Call) (run : List S3Call × Result (Option String)) : Type 0 where
  pub failures : ℕ
  pub few : failures ≤ limit
  pub calls_made : run.0 ≡ (before_try s3 data_ (suc failures) calls input).0
  pub answer : run.1 ≡ answer_of s3 data_ failures calls input
  pub failed_before :
      (k : ℕ) → k < failures → (e : String) × (answer_of s3 data_ k calls input ≡ err e)
  pub ended : (failures ≡ limit) ⊎ ((etag : Option String) × (run.1 ≡ ok etag))
  pub later_inputs :
      (k : ℕ) → k < failures → IsLater data_ input (before_try s3 data_ (suc k) calls input).1
