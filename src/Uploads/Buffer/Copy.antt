-- ===== src/Uploads/Buffer/Copy.antt =====
-- `Copy`: what was put and what is still in the buffer is what was read, in order.
use cloudvelo.Prelude.{
  ℕ, zero, suc, String, List, [], ◌∷◌, ◌++◌, ◌+◌, ◌-◌, ◌≤◌, ◌<◌, Option, none, some, Bool, true,
  leb, length, concat, All, ◌≡◌, refl, ap, sym, ◌∙◌, ◌⊎◌, inl, inr, arith, Bool-cases, leb→le,
  length-append, append-nil, append_assoc, concat-append, All-append, subst,
}
use cloudvelo.Uploads.Api.{Bytes, CloudUploader, Reader, IoError, Sent}
use cloudvelo.Uploads.Buffer.{
  BufferedWriter, flush, flushed, flush_full, filled, to_read, copy_read, copy_flushed, copy,
  stop_error,
}

-- The reader gives no more than it is asked for.
abbrev pub IsBounded {κ} : {R : Type κ} → Reader R → Type κ
IsBounded {R = R} reader = (n : ℕ) (r : R) → length (reader.read n r).1.0 ≤ n

-- Reads that give these bytes one after the other.
pub data Reads {κ} {R : Type κ} (reader : Reader R) : R → Bytes → R → Type κ where
  no_read : {r : R} → Reads reader r [] r
  then_read :
      {r s : R} {bytes : Bytes} (n : ℕ)
      → Reads reader (reader.read n r).0 bytes s
      → Reads reader r ((reader.read n r).1.0 ++ bytes) s

module _ {ℓ} {S : Type ℓ} (up : CloudUploader S) where
  -- From `w` to `w'` the writer took these bytes: full parts were put, the rest is in the buffer.
  pub record Buffered (w : BufferedWriter S) (taken : Bytes) (w' : BufferedWriter S) : Type ℓ where
    pub parts : List Bytes
    pub sent : Sent up w.uploader parts w'.uploader
    pub full : All (λ part. length part ≡ w.buf_length) parts
    pub kept : concat parts ++ w'.buf ≡ w.buf ++ taken
    pub first :
        ((parts ≡ []) × (w'.sent_first_buffer ≡ w.sent_first_buffer))
        ⊎ ((0 < length parts) × (w'.sent_first_buffer ≡ true))
    pub counted : w'.total ≡ w.total + length taken
    pub room : length w'.buf < w'.buf_length
    pub same_length : w'.buf_length ≡ w.buf_length

  pub Sent-append :
      (s t v : S) (ps qs : List Bytes) → Sent up s ps t → Sent up t qs v → Sent up s (ps ++ qs) v
  Sent-append s t v [] qs e there = subst (λ x. Sent up x qs v) (sym e) there
  Sent-append s t v (p ∷ ps) qs (accepted, here) there =
      (accepted, Sent-append (up.put p s).0 t v ps qs here there)

  pub Buffered-nil : (w : BufferedWriter S) → length w.buf < w.buf_length → Buffered w [] w
  Buffered-nil w room = record {
    parts = [];
    sent = refl;
    full = tt;
    kept = sym (append-nil w.buf);
    first = inl (refl, refl);
    counted = omega arith;
    room = room;
    same_length = refl;
  }

  first_of :
      (ps qs : List Bytes) {x y z : Bool}
      → ((ps ≡ []) × (y ≡ x)) ⊎ ((0 < length ps) × (y ≡ true))
      → ((qs ≡ []) × (z ≡ y)) ⊎ ((0 < length qs) × (z ≡ true))
      → ((ps ++ qs ≡ []) × (z ≡ x)) ⊎ ((0 < length (ps ++ qs)) × (z ≡ true))
  first_of ps qs before (inr (some_qs, at_end)) =
      inr (omega (arith, some_qs, length-append ps qs), at_end)
  first_of ps qs (inl (no_ps, same)) (inl (no_qs, same')) =
      inl (rw (no_ps, no_qs) refl, same' ∙ same)
  first_of ps qs (inr (some_ps, before)) (inl (no_qs, same')) =
      inr (omega (arith, some_ps, length-append ps qs), same' ∙ before)

  pub Buffered-append :
      {w v z : BufferedWriter S} {xs ys : Bytes}
      → Buffered w xs v
      → Buffered v ys z
      → Buffered w (xs ++ ys) z
  Buffered-append {w} {v} {z} {xs} {ys} a b = record {
    parts = a.parts ++ b.parts;
    sent = Sent-append w.uploader v.uploader z.uploader a.parts b.parts a.sent b.sent;
    full =
        All-append _ a.parts b.parts a.full
          (subst (λ n. All (λ part. length part ≡ n) b.parts) a.same_length b.full);
    kept =
        ap (λ ps. ps ++ z.buf) (concat-append a.parts b.parts)
        ∙ append_assoc (concat a.parts) (concat b.parts) z.buf
        ∙ ap (λ ps. concat a.parts ++ ps) b.kept
        ∙ sym (append_assoc (concat a.parts) v.buf ys)
        ∙ ap (λ ps. ps ++ ys) a.kept
        ∙ append_assoc w.buf xs ys;
    first = first_of a.parts b.parts a.first b.first;
    counted = omega (arith, a.counted, b.counted, length-append xs ys);
    room = b.room;
    same_length = b.same_length ∙ a.same_length;
  }

  pub flushed-none :
      (w : BufferedWriter S) (answer : S × Option String) {w' : BufferedWriter S}
      → flushed w answer ≡ (w', none)
      → (answer.1 ≡ none)
        × (record w { sent_first_buffer = true; uploader = answer.0; buf = [] } ≡ w')
  unfolding flushed
  flushed-none w (s, none) e = (refl, ap (λ x. x.0) e)
  flushed-none w (s, some text) e = cc (ap (λ x. x.1) e)

  -- One flush of a full buffer.
  flush_full-Buffered :
      (w : BufferedWriter S) (bytes : Bytes) {w' : BufferedWriter S}
      → 0 < w.buf_length
      → length w.buf + length bytes ≤ w.buf_length
      → flush_full up (filled w bytes) ≡ (w', none)
      → Buffered w bytes w'
  unfolding flush_full filled flush
  flush_full-Buffered w bytes {w'} positive fits e =
      elim (Bool-cases (leb w.buf_length (length (w.buf ++ bytes)))) [
        | inl is_full ↦
            let (accepted, after) =
              flushed-none (filled w bytes) (up.put (w.buf ++ bytes) w.uploader)
                (rw is_full at e) in
            let reached = leb→le _ _ is_full in
            subst (Buffered w bytes) after (record {
              parts = (w.buf ++ bytes) ∷ [];
              sent = (accepted, refl);
              full = (omega (arith, reached, length-append w.buf bytes), tt);
              kept = append-nil _ ∙ append-nil _;
              first = inr (omega arith, refl);
              counted = refl;
              room = positive;
              same_length = refl;
            })
        | inr not_full ↦
            let after = ap (λ x. x.0) (rw not_full at e) in
            subst (Buffered w bytes) after (record {
              parts = [];
              sent = refl;
              full = tt;
              kept = refl;
              first = inl (refl, refl);
              counted = refl;
              room = ground (arith, not_full, length-append w.buf bytes);
              same_length = refl;
            })
      ]

value_or {ℓ} : {A : Type ℓ} → A → Option A → A
value_or z none = z
value_or z (some a) = a

pub value_injective {ℓ} : {A : Type ℓ} {a b : A} → some a ≡ some b → a ≡ b
unfolding value_or
value_injective {a = a} e = ap (value_or a) e

module _ {ℓ κ} {S : Type ℓ} {R : Type κ} (up : CloudUploader S) (reader : Reader R) where
  -- A read of at least one byte that gave none.
  abbrev pub IsStopped : R → Type κ
  IsStopped r =
      (n : ℕ) × (q : R) × (0 < n) × ((reader.read n q).1.0 ≡ []) × ((reader.read n q).0 ≡ r)

  -- A `Copy` that ended without an error: the writer took what was read, which is all that was
  -- asked for, or as much as the reader had.
  abbrev pub Copied : ℕ → BufferedWriter S → R → BufferedWriter S → R → Type (ℓ ⊔ κ)
  Copied len w r w' r' =
      (data_read : Bytes) × Reads reader r data_read r'
      × Buffered up w data_read w'
      × (length data_read ≤ len)
      × ((length data_read ≡ len) ⊎ IsStopped r')

  -- The loop ended, and if without an error, then as above.
  pub Finished :
      ℕ → BufferedWriter S → R → Option (BufferedWriter S × R × Option String) → Type (ℓ ⊔ κ)
  Finished len w r result =
      (w' : BufferedWriter S) × (r' : R) × (e : Option String) × (result ≡ some (w', r', e))
      × (e ≡ none → Copied len w r w' r')

  Rounds : ℕ → Type (ℓ ⊔ κ)
  Rounds fuel =
      (len : ℕ) (w : BufferedWriter S) (r : R)
      → len < fuel
      → length w.buf < w.buf_length
      → Finished len w r (copy up reader fuel len w r)

  module _ (bounded : IsBounded reader) where
    Finished-copy_flushed :
        (fuel len n : ℕ) (w : BufferedWriter S) (r q : R) (bytes : Bytes)
        → Rounds fuel
        → len ≤ fuel
        → 0 < length bytes
        → length bytes ≤ len
        → length w.buf + length bytes ≤ w.buf_length
        → (reader.read n r).1.0 ≡ bytes
        → (reader.read n r).0 ≡ q
        → (after : BufferedWriter S × Option String) → flush_full up (filled w bytes) ≡ after
        → Finished len w r (copy_flushed (copy up reader fuel (len - length bytes)) q after)
    unfolding Finished Rounds copy_flushed
    Finished-copy_flushed fuel len n w r q bytes rounds enough some_read asked fits is_bytes is_q
          (w1, some e) flush_e =
        (w1, q, some e, refl, λ h. cc h)
    Finished-copy_flushed fuel len n w r q bytes rounds enough some_read asked fits is_bytes is_q
          (w1, none) flush_e =
        let step = flush_full-Buffered up w bytes (omega arith) fits flush_e in
        let (w', r', e, is_result, copied) =
          rounds (len - length bytes) w1 q (omega arith) step.room in
        (
          w',
          r',
          e,
          is_result,
          λ h.
              let (rest, reads, buffered, within, ended) = copied h in
              (
                bytes ++ rest,
                subst (λ bs. Reads reader r (bs ++ rest) r') is_bytes
                    (then_read n (subst (λ s. Reads reader s rest r') (sym is_q) reads)),
                Buffered-append up step buffered,
                omega (arith, length-append bytes rest, within),
                elim ended [
                  | inl all ↦ inl (omega (arith, length-append bytes rest, all))
                  | inr stopped ↦ inr stopped
                ],
              ),
        )

    Finished-copy_read :
        (fuel len n : ℕ) (w : BufferedWriter S) (r : R)
        → Rounds fuel
        → len ≤ fuel
        → 0 < n
        → n ≤ len
        → length w.buf + n ≤ w.buf_length
        → (answer : R × (Bytes × Option IoError)) → reader.read n r ≡ answer
        → Finished len w r (copy_read up (copy up reader fuel) len w answer)
    unfolding Finished copy_read
    Finished-copy_read fuel len n w r rounds enough asked within fits (q, ([], e)) answer_e = (
      w,
      q,
      stop_error e,
      refl,
      λ h. (
        [],
        subst (λ bs. Reads reader r bs q) (ap (λ a. a.1.0 ++ []) answer_e)
            (then_read n (subst (λ s. Reads reader s [] q) (ap (λ a. a.0) (sym answer_e)) no_read)),
        Buffered-nil up w (omega arith),
        omega arith,
        inr (n, r, asked, ap (λ a. a.1.0) answer_e, ap (λ a. a.0) answer_e),
      ),
    )
    Finished-copy_read fuel len n w r rounds enough asked within fits (q, (b ∷ bytes, e)) answer_e =
        let short : suc (length bytes) ≤ n = subst (λ a. length a.1.0 ≤ n) answer_e (bounded n r) in
        Finished-copy_flushed fuel len n w r q (b ∷ bytes) rounds enough (omega arith) (omega arith)
          (omega arith) (ap (λ a. a.1.0) answer_e) (ap (λ a. a.0) answer_e)
          (flush_full up (filled w (b ∷ bytes))) refl

    copy-Finished : (fuel : ℕ) → Rounds fuel
    unfolding Rounds copy Finished to_read
    copy-Finished zero len w r enough room = absurd (omega arith)
    copy-Finished (suc fuel) zero w r enough room =
        (w, r, none, refl, λ h. ([], no_read, Buffered-nil up w room, omega arith, inl refl))
    copy-Finished (suc fuel) (suc len) w r enough room =
        Finished-copy_read fuel (suc len) (to_read w (suc len)) w r (copy-Finished fuel)
          (omega arith) (ground arith) (ground arith) (ground arith)
          (reader.read (to_read w (suc len)) r) refl

    -- `Copy` ends, with an error or without one: with a reader that gives no more than it is asked
    -- for, and room in the buffer, one round for each byte that is asked for, and one more, are enough.
    pub copy_total :
        (len : ℕ) (w : BufferedWriter S) (r : R)
        → length w.buf < w.buf_length
        → (w' : BufferedWriter S) × (r' : R) × (e : Option String) × (copy up reader
              (suc len)
              len
              w
              r
            ≡ some (w', r', e))
    unfolding Rounds Finished
    copy_total len w r room =
        let (w', r', e, ended, copied) = copy-Finished (suc len) len w r (omega arith) room in
        (w', r', e, ended)

    pub copy_exact :
        (len : ℕ) (w : BufferedWriter S) (r : R) {w' : BufferedWriter S} {r' : R}
        → length w.buf < w.buf_length
        → copy up reader (suc len) len w r ≡ some (w', r', none)
        → Copied len w r w' r'
    unfolding Rounds Finished
    copy_exact len w r {w'} {r'} room ended =
        let (v, q, e, ended', copied) = copy-Finished (suc len) len w r (omega arith) room in
        let same = value_injective (sym ended' ∙ ended) in
        subst (λ (x : BufferedWriter S × R × Option String). Copied len w r x.0 x.1) same
          (copied (ap (λ (x : BufferedWriter S × R × Option String). x.2) same))
