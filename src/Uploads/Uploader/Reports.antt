-- ===== src/Uploads/Uploader/Reports.antt =====
-- The reports to the responder, over any calls of the uploader.
use cloudvelo.Prelude.{
  ℕ, String, List, [], ◌∷◌, ◌++◌, ◌+◌, ◌≤◌, ◌<◌, Option, true, false, not, nat_eq, if◌then◌else◌,
  length, ◌≡◌, refl, ap, sym, inl, inr, arith, Bool-cases, Result, ok, err, length-append, subst,
  if_true, if_false, if_elim,
}
use cloudvelo.Uploads.Api.{Bytes, IndexRange}
use cloudvelo.Uploads.Uploader.{
  VeloCloudUploader, FileBuffer, Network, HttpResponse, CompletedPart, put, put_answered, commit,
  close, close_answered, set_index, put_decoded, report_of, update_server_stat, put_request,
  completion_request,
}

-- The reports follow each other without a gap or an overlap, from one offset to the other.
abbrev pub Tiles : ℕ → List FileBuffer → ℕ → Type 0
Tiles from [] to = from ≡ to
Tiles from (r ∷ rs) to =
    (r.offset ≡ from) × (r.stored_size ≡ from + r.data_length) × Tiles (from + r.data_length) rs to

-- How many of the reports say that the file is complete.
abbrev pub count_eof : List FileBuffer → ℕ
count_eof [] = 0
count_eof (r ∷ rs) = let rest = count_eof rs in if r.eof then 1 + rest else rest

-- What the reports and the counters of an uploader say of each other.
pub record IsConsistent (self : VeloCloudUploader) : Type 0 where
  pub tiled : Tiles 0 self.reports self.offset
  pub ends : count_eof self.reports ≤ (if self.closed then 1 else 0)
  pub hashed_all : self.offset ≤ length self.hashed
  pub numbered : length self.parts < self.part

Tiles-snoc :
    (from to : ℕ) (rs : List FileBuffer) (r : FileBuffer)
    → Tiles from rs to
    → r.offset ≡ to
    → r.stored_size ≡ to + r.data_length
    → Tiles from (rs ++ r ∷ []) (to + r.data_length)
Tiles-snoc from to [] r here starts stores =
    (omega (arith, here, starts), omega (arith, here, stores), omega (arith, here))
Tiles-snoc from to (s ∷ rs) r here starts stores =
    (here.0, here.1, Tiles-snoc (from + s.data_length) to rs r here.2 starts stores)

count_eof-snoc :
    (rs : List FileBuffer) (r : FileBuffer)
    → count_eof (rs ++ r ∷ []) ≡ count_eof rs + (if r.eof then 1 else 0)
count_eof-snoc [] r = ground arith
count_eof-snoc (s ∷ rs) r = ground (arith, count_eof-snoc rs r)

put_decoded-IsConsistent :
    (buf : Bytes) (self : VeloCloudUploader) (decoded : Result CompletedPart)
    → Tiles 0 self.reports self.offset
    → count_eof self.reports ≤ (if self.closed then 1 else 0)
    → self.offset + length buf ≤ length self.hashed
    → length self.parts < self.part
    → IsConsistent (put_decoded buf self decoded).0
unfolding put_decoded update_server_stat
put_decoded-IsConsistent buf self (err e) t n h p = record {
  tiled = t;
  ends = n;
  hashed_all = omega arith;
  numbered = omega arith;
}
put_decoded-IsConsistent buf self (ok completed) t n h p = record {
  tiled = Tiles-snoc 0 self.offset self.reports _ t refl refl;
  ends = omega (arith, count_eof-snoc self.reports (report_of false (length buf) self), n);
  hashed_all = h;
  numbered = omega (arith, length-append self.parts (completed ∷ []), p);
}

put_answered-IsConsistent :
    (net : Network) (buf : Bytes) (self : VeloCloudUploader) (answer : Result HttpResponse)
    → Tiles 0 self.reports self.offset
    → count_eof self.reports ≤ (if self.closed then 1 else 0)
    → self.offset + length buf ≤ length self.hashed
    → length self.parts < self.part
    → IsConsistent (put_answered net buf self answer).0
unfolding put_answered
put_answered-IsConsistent net buf self (err e) t n h p = record {
  tiled = t;
  ends = n;
  hashed_all = omega arith;
  numbered = p;
}
put_answered-IsConsistent net buf self (ok resp) t n h p =
    if_elim (λ (x : VeloCloudUploader × Option String). IsConsistent x.0)
      (not (nat_eq resp.status_code 200))
      (record { tiled = t; ends = n; hashed_all = omega arith; numbered = p })
      (put_decoded-IsConsistent buf self (net.decode_part resp.body) t n h p)

put-IsConsistent :
    (net : Network) (buf : Bytes) (self : VeloCloudUploader)
    → IsConsistent self
    → IsConsistent (put net buf self).0
unfolding put
put-IsConsistent net buf self c =
    put_answered-IsConsistent net buf _ (net.do_ self.sent (put_request buf self)) c.tiled c.ends
      (omega (arith, length-append self.hashed buf, c.hashed_all)) c.numbered

close_answered-IsConsistent :
    (self : VeloCloudUploader) (answer : Result HttpResponse)
    → IsConsistent self
    → self.closed ≡ true
    → count_eof self.reports ≡ 0
    → IsConsistent (close_answered self answer).0
unfolding close_answered update_server_stat
close_answered-IsConsistent self (err e) c shut n = record {
  tiled = c.tiled;
  ends = c.ends;
  hashed_all = c.hashed_all;
  numbered = c.numbered;
}
close_answered-IsConsistent self (ok resp) c shut n =
    if_elim (λ (x : VeloCloudUploader × Option String). IsConsistent x.0)
      (not (nat_eq resp.status_code 200))
      (record { tiled = c.tiled; ends = c.ends; hashed_all = c.hashed_all; numbered = c.numbered })
      (record {
        tiled =
            subst (λ to. Tiles 0 (self.reports ++ report_of true 0 self ∷ []) to) (omega arith)
              (Tiles-snoc 0 self.offset self.reports (report_of true 0 self) c.tiled refl refl);
        ends = omega (
          arith,
          count_eof-snoc self.reports (report_of true 0 self),
          n,
          ap {B = ℕ} (λ b. if b then 1 else 0) shut,
        );
        hashed_all = c.hashed_all;
        numbered = c.numbered;
      })

close-IsConsistent :
    (net : Network) (self : VeloCloudUploader) → IsConsistent self → IsConsistent (close net self).0
unfolding close
close-IsConsistent net self c = elim (Bool-cases self.closed) [
  | inl shut ↦
      subst (λ (x : VeloCloudUploader × Option String). IsConsistent x.0) (sym (if_true _ shut)) c
  | inr unclosed ↦
      let none_yet : count_eof self.reports ≡ 0 =
        omega (arith, c.ends, ap {B = ℕ} (λ b. if b then 1 else 0) unclosed) in
      subst (λ (x : VeloCloudUploader × Option String). IsConsistent x.0)
        (sym (if_false _ unclosed))
        (close_answered-IsConsistent _ (net.do_ self.sent (completion_request self))
          (record {
            tiled = c.tiled;
            ends = omega arith;
            hashed_all = c.hashed_all;
            numbered = c.numbered;
          })
          refl none_yet)
]

set_index-IsConsistent :
    (index : List IndexRange) (self : VeloCloudUploader)
    → IsConsistent self
    → IsConsistent (set_index index self)
unfolding set_index
set_index-IsConsistent [] self c = c
set_index-IsConsistent (r ∷ rest) self c = record {
  tiled = c.tiled;
  ends = c.ends;
  hashed_all = c.hashed_all;
  numbered = c.numbered;
}

commit-IsConsistent : (self : VeloCloudUploader) → IsConsistent self → IsConsistent (commit self)
unfolding commit
commit-IsConsistent self c = record {
  tiled = c.tiled;
  ends = c.ends;
  hashed_all = c.hashed_all;
  numbered = c.numbered;
}

-- The calls of an uploader.
pub data Call : Type 0 where
  call_put : Bytes → Call
  call_commit : Call
  call_close : Call
  call_set_index : List IndexRange → Call

abbrev pub run : Network → List Call → VeloCloudUploader → VeloCloudUploader
run net [] self = self
run net (call_put buf ∷ calls) self = run net calls (put net buf self).0
run net (call_commit ∷ calls) self = run net calls (commit self)
run net (call_close ∷ calls) self = run net calls (close net self).0
run net (call_set_index index ∷ calls) self = run net calls (set_index index self)

-- Whatever the uploader is called with, in whatever order, and whatever the server answers: the
-- reports to the responder stay contiguous from 0 to the uploader's offset, at most one of them says
-- that the file is complete, and none before it is closed; no more bytes are counted than were
-- hashed, and there are fewer completed parts than the next part's number.
pub run-IsConsistent :
    (net : Network) (calls : List Call) (self : VeloCloudUploader)
    → IsConsistent self
    → IsConsistent (run net calls self)
run-IsConsistent net [] self c = c
run-IsConsistent net (call_put buf ∷ calls) self c =
    run-IsConsistent net calls (put net buf self).0 (put-IsConsistent net buf self c)
run-IsConsistent net (call_commit ∷ calls) self c =
    run-IsConsistent net calls (commit self) (commit-IsConsistent self c)
run-IsConsistent net (call_close ∷ calls) self c =
    run-IsConsistent net calls (close net self).0 (close-IsConsistent net self c)
run-IsConsistent net (call_set_index index ∷ calls) self c =
    run-IsConsistent net calls (set_index index self) (set_index-IsConsistent index self c)
