-- ===== src/Uploads/Buffer.antt =====
-- vql/uploads/buffer.go: the buffered writer in front of an uploader.
pub mod Copy
pub mod Whole
use cloudvelo.Prelude.{
  ℕ, zero, suc, String, List, [], ◌∷◌, ◌++◌, ◌+◌, ◌-◌, ◌*◌, Option, none, some, Bool, true, false,
  if◌then◌else◌, ltb, leb, nat_eq, length,
}
use cloudvelo.Uploads.Api.{Bytes, CloudUploader, Reader, IoError, eof, failure}

-- `buf` is `buf[:buf_idx]`, and `buf_idx` its length.
pub record BufferedWriter {ℓ} (S : Type ℓ) : Type ℓ where
  pub buf : Bytes
  pub buf_length : ℕ
  pub uploader : S
  pub total : ℕ
  pub sent_first_buffer : Bool

abbrev pub buff_size : ℕ
buff_size = 10 * 1024 * 1024

module _ {ℓ} {S : Type ℓ} where
  unfoldable pub new_buffer_writer : S → BufferedWriter S
  new_buffer_writer up = record {
    buf = [];
    buf_length = buff_size;
    uploader = up;
    total = 0;
    sent_first_buffer = false;
  }

  -- `buf_idx` goes back to 0 only where the part was put.
  pub flushed : BufferedWriter S → S × Option String → BufferedWriter S × Option String
  flushed w (s, none) = (record w { sent_first_buffer = true; uploader = s; buf = [] }, none)
  flushed w (s, some e) = (record w { sent_first_buffer = true; uploader = s }, some e)

  unfoldable pub flush : CloudUploader S → BufferedWriter S → BufferedWriter S × Option String
  unfolding flushed
  flush up w = flushed w (up.put w.buf w.uploader)

  pub with_uploader : BufferedWriter S → S × Option String → BufferedWriter S × Option String
  with_uploader w (s, e) = (record w { uploader = s }, e)

  pub closed : CloudUploader S → BufferedWriter S × Option String → BufferedWriter S × Option String
  unfolding with_uploader
  closed up (w, some e) = (w, some e)
  closed up (w, none) = with_uploader w (up.close (up.commit w.uploader))

  unfoldable pub close : CloudUploader S → BufferedWriter S → BufferedWriter S × Option String
  unfolding with_uploader closed
  close up w =
      if w.sent_first_buffer
      then closed up (flush up w)
      else with_uploader w (up.put_whole w.buf w.uploader)

  -- How much is asked of the reader.
  unfoldable pub to_read : BufferedWriter S → ℕ → ℕ
  to_read w len = let space = w.buf_length - length w.buf in if ltb space len then space else len

  -- The bytes of one read.
  unfoldable pub filled : BufferedWriter S → Bytes → BufferedWriter S
  filled w bytes = record w { buf = w.buf ++ bytes; total = w.total + length bytes }

  -- "Buffer is full - flush it"
  unfoldable pub flush_full : CloudUploader S → BufferedWriter S → BufferedWriter S × Option String
  flush_full up w = if leb w.buf_length (length w.buf) then flush up w else (w, none)

-- `err != nil && err != io.EOF && n == 0`, and then `n == 0`.
abbrev pub stop_error : Option IoError → Option String
stop_error none = none
stop_error (some eof) = none
stop_error (some (failure e)) = some e

module _ {ℓ κ} {S : Type ℓ} {R : Type κ} where
  -- One round of the loop: after its flush, and after its read. `again` is the next round.
  copy_flushed :
      (BufferedWriter S → R → Option (BufferedWriter S × R × Option String))
      → R
      → BufferedWriter S × Option String
      → Option (BufferedWriter S × R × Option String)
  copy_flushed again r (w, some e) = some (w, r, some e)
  copy_flushed again r (w, none) = again w r

  copy_read :
      CloudUploader S
      → (ℕ → BufferedWriter S → R → Option (BufferedWriter S × R × Option String))
      → ℕ
      → BufferedWriter S
      → R × (Bytes × Option IoError)
      → Option (BufferedWriter S × R × Option String)
  copy_read up again len w (r, ([], e)) = some (w, r, stop_error e)
  copy_read up again len w (r, (b ∷ bytes, e)) =
      copy_flushed (again (len - length (b ∷ bytes))) r (flush_full up (filled w (b ∷ bytes)))

  -- The loop of `Copy` on fuel, `none` where the fuel ran out.
  unfoldable pub copy :
      CloudUploader S
      → Reader R
      → ℕ
      → ℕ
      → BufferedWriter S
      → R
      → Option (BufferedWriter S × R × Option String)
  unfolding copy_read copy_flushed
  copy up reader zero len w r = none
  copy up reader (suc fuel) zero w r = some (w, r, none)
  copy up reader (suc fuel) (suc len) w r =
      copy_read up (copy up reader fuel) (suc len) w (reader.read (to_read w (suc len)) r)
