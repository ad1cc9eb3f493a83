-- ===== src/Uploads/Tests.antt =====
-- A file of three bytes, with a server that takes every request.
use cloudvelo.Prelude.{
  ℕ, zero, suc, String, List, [], ◌∷◌, ◌≤◌, Option, none, some, false, ◌≡◌, ◌<◌, refl, ◌⊎◌, arith,
  length, take, drop, ok,
}
use cloudvelo.Uploads.Api.{Bytes, Reader, CloudUploader}
use cloudvelo.Uploads.Buffer.{
  buff_size, BufferedWriter, new_buffer_writer, copy, close, to_read, filled, flush_full,
}
use cloudvelo.Uploads.Buffer.Copy.{IsBounded, Reads, IsStopped, copy_total}
use cloudvelo.Uploads.Buffer.Whole.{Delivered, as_one, buffered_upload_exact}
use cloudvelo.Uploads.Uploader.{
  VeloCloudUploader, Network, velo_cloud_uploader, put, update_server_stat, get_vql_response,
  completion_request, HttpRequest,
}
use cloudvelo.Uploads.Uploader.Reports.{IsConsistent, run, call_put, call_close, run-IsConsistent}
use cloudvelo.Uploads.Uploader.Closing.{IsFresh, IsArrived, response_for, Delivered-exact}

abbrev net : Network
net = record {
  do_ = λ before request. ok (record { status_code = 200; status = "OK"; body = "" });
  decode_key = λ body. ok (record { key = "k"; upload_id = "u" });
  decode_part = λ body. ok (record { etag = "e"; part_number = 1 });
  sha256 = λ bytes. "sha";
  md5 = λ bytes. "md5";
}

abbrev fresh : VeloCloudUploader
fresh = record {
  key = "k";
  upload_id = "u";
  upload_number = 1;
  next_upload_id = 2;
  committed = false;
  hashed = [];
  size = 3;
  offset = 0;
  part = 1;
  parts = [];
  session_id = "F.1";
  path = record { text = "/a"; delegate_path = ""; components = "a" ∷ [] };
  client_id = "C.1";
  accessor = "file";
  mtime = some 5;
  atime = none;
  ctime = none;
  btime = none;
  uploader_type = "";
  response = none;
  closed = false;
  index = none;
  sent = [];
  reports = [];
}

fresh-IsFresh : IsFresh fresh
fresh-IsFresh = record {
  hashed = refl;
  offset = refl;
  part = refl;
  parts = refl;
  response = refl;
  closed = refl;
}

abbrev three : Bytes
three = 1 ∷ 2 ∷ 3 ∷ []

-- A reader over a list.
abbrev list_reader : Reader Bytes
list_reader = record { read = λ n bytes. (drop n bytes, (take n bytes, none)) }

length-take-le : (n : ℕ) (bytes : Bytes) → length (take n bytes) ≤ n
length-take-le zero bytes = omega arith
length-take-le (suc n) [] = omega arith
length-take-le (suc n) (b ∷ bytes) = omega (arith, length-take-le n bytes)

bounded : IsBounded list_reader
bounded n bytes = length-take-le n bytes

abbrev up : CloudUploader VeloCloudUploader
up = velo_cloud_uploader net

copied :
    (w : BufferedWriter VeloCloudUploader) × (copy up list_reader 4 3
        (new_buffer_writer fresh)
        three
      ≡ some (w, [], none))
unfolding copy to_read filled flush_full new_buffer_writer
copied = (_, refl)

closing : (w : BufferedWriter VeloCloudUploader) × (close up copied.0 ≡ (w, none))
unfolding close copied velo_cloud_uploader put update_server_stat new_buffer_writer
closing = (_, refl)

buffered_upload_exact_example :
    (bytes : Bytes) × Reads list_reader three bytes []
    × ((length bytes ≡ 3) ⊎ IsStopped up list_reader [])
    × Delivered up fresh bytes (closing.0).uploader
    × (length bytes < buff_size → up.put_whole bytes fresh ≡ ((closing.0).uploader, none))
buffered_upload_exact_example =
    buffered_upload_exact up list_reader 3 fresh three {w = copied.0} {w' = closing.0} {r' = []}
      bounded copied.1 closing.1

copy_total_example :
    (w : BufferedWriter VeloCloudUploader) × (r : Bytes) × (e : Option String) × (copy up
        list_reader 4 3
        (new_buffer_writer fresh)
        three
      ≡ some (w, r, e))
unfolding new_buffer_writer
copy_total_example =
    copy_total up list_reader bounded 3 (new_buffer_writer fresh) three (omega arith)

put_example : (end : VeloCloudUploader) × ((put net three fresh) ≡ (end, none))
unfolding put update_server_stat
put_example = (_, refl)

delivered : Delivered (velo_cloud_uploader net) fresh three put_example.0
unfolding velo_cloud_uploader
delivered = as_one (omega arith) put_example.1

Delivered-exact_example :
    (get_vql_response net put_example.0 ≡ response_for net fresh.path three)
    × ((pieces : List Bytes) × (rest : List HttpRequest) × IsArrived fresh three pieces rest
          put_example.0
        × (((rest ≡ []) × (pieces ≡ three ∷ []) × ((put_example.0).closed ≡ false))
            ⊎ ((t : VeloCloudUploader) × (rest ≡ completion_request t ∷ [])
                × (t.key ≡ "k")
                × (t.upload_id ≡ "u")
                × (length t.parts ≡ length pieces))))
Delivered-exact_example = Delivered-exact net fresh put_example.0 three fresh-IsFresh delivered

run-IsConsistent_example :
    IsConsistent (run net (call_put three ∷ call_close ∷ call_close ∷ []) fresh)
run-IsConsistent_example =
    run-IsConsistent net (call_put three ∷ call_close ∷ call_close ∷ []) fresh (record {
      tiled = refl;
      ends = omega arith;
      hashed_all = omega arith;
      numbered = omega arith;
    })
