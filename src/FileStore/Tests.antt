-- ===== src/FileStore/Tests.antt =====
-- A file of two bytes, with an S3 that takes every request, one that fails once, and one that also
-- leaves the reader at its end when it fails.
use cloudvelo.Prelude.{
  ℕ, true, false, String, List, [], ◌∷◌, none, some, Bool, Result, ok, err, concat, map, length,
  ltb, if◌then◌else◌, ◌≡◌, refl, inr,
}
use cloudvelo.FileStore.Writer.{
  S3, S3Writer, Request, write_file, write, write_full, start, close, flush, write_buf,
  upload_retry,
}
use cloudvelo.FileStore.Written.{
  HasBytes, IsRewinding, IsComplete, taken, body_of, write-HasBytes, close_exact,
}

-- The first put fails, after S3 read so many bytes of it.
abbrev failing : ℕ → S3
failing read = record {
  create = λ before key. ok (some "u");
  put = λ before request. if ltb (length before) 2 then (read, err "slow down") else (read, ok "e");
  call = λ before request. none;
}

abbrev put_answer : ℕ → Bool → ℕ × Result String
put_answer read b = if b then (read, err "slow down") else (read, ok "e")

put_answer-zero : (b : Bool) → (put_answer 0 b).0 ≡ 0
put_answer-zero true = refl
put_answer-zero false = refl

s3-IsRewinding : IsRewinding (failing 0)
s3-IsRewinding = record {
  rewinds = λ before request e failed. put_answer-zero (ltb (length before) 2);
  named = λ before key. cc;
}

opened : HasBytes (failing 0) (write_file "k" 0) []
unfolding write_file
opened = record {
  held = refl;
  numbered = tt;
  told = refl;
  next_part = refl;
  one_upload = tt;
  begun = inr (refl, refl);
}

abbrev written : ℕ → S3Writer
written read = (write (failing read) (1 ∷ 2 ∷ []) (write_file "k" 0)).0

written_ok : (write (failing 0) (1 ∷ 2 ∷ []) (write_file "k" 0)).1 ≡ none
unfolding write write_file start write_full
written_ok = refl

write-HasBytes_example : HasBytes (failing 0) (written 0) (1 ∷ 2 ∷ [])
write-HasBytes_example =
    write-HasBytes (failing 0) s3-IsRewinding (write_file "k" 0) [] (1 ∷ 2 ∷ []) opened written_ok

written-HasBytes : HasBytes (failing 0) (written 0) (1 ∷ 2 ∷ [])
written-HasBytes =
    write-HasBytes (failing 0) s3-IsRewinding (write_file "k" 0) [] (1 ∷ 2 ∷ []) opened written_ok

closed_ok : (close (failing 0) (written 0)).1 ≡ none
unfolding write write_file start write_full close flush write_buf upload_retry
closed_ok = refl

close_exact_example :
    let w = (close (failing 0) (written 0)).0 in
    (before : List Request) × IsComplete
      (failing 0)
      s3-IsRewinding
      w.key
      w.upload_id
      before
      (1 ∷ 2 ∷ [])
      w.sent
close_exact_example =
    close_exact (failing 0) s3-IsRewinding (written 0) (1 ∷ 2 ∷ []) written-HasBytes closed_ok

-- Where the failed put has read the part, the next try sends nothing, and S3 takes that.
lost : concat (map body_of (taken (failing 2) [] ((close (failing 2) (written 2)).0).sent)) ≡ []
unfolding write write_file start write_full close flush write_buf upload_retry
lost = refl
