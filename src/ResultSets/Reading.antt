-- ===== src/ResultSets/Reading.antt =====
-- Reading a packed result set from a row on gives the rows from there.
use cloudvelo.Prelude.{
  pos, ℕ, zero, suc, List, [], ◌∷◌, ◌++◌, ◌+◌, ◌-◌, ◌≤◌, ◌<◌, Bool, true, false, ltb, length, drop,
  concat, map, ok, err, Option, some, All, In, ◌≡◌, ◌≢◌, refl, ap, sym, ◌∙◌, inl, inr, arith, subst,
  length-append, concat-append, Bool-cases, ltb→lt, if_true, if_false,
}
use cloudvelo.ResultSets.Writer.{Bytes, SimpleResultSetRecord}
use cloudvelo.ResultSets.Reader.{
  Index, get_packet, first_hit, lines, consume, read_enough, is_last, read_packet, then_send,
  read_rows, rows,
}
use cloudvelo.ResultSets.Packets.{
  IsLine, with_newline, lines-unlines, IsPacket, Packed, Packed-Covers, Covers,
}

module _ {ℓ} {A : Type ℓ} where
  drop-append : (n : ℕ) (xs ys : List A) → n ≤ length xs → drop n (xs ++ ys) ≡ drop n xs ++ ys
  drop-append zero xs ys h = refl
  drop-append (suc n) [] ys h = absurd (omega arith)
  drop-append (suc n) (x ∷ xs) ys h = drop-append n xs ys (omega arith)

  drop-append_past : (xs ys : List A) (n : ℕ) → drop (length xs + n) (xs ++ ys) ≡ drop n ys
  drop-append_past [] ys n = ap (λ m. drop m ys) (omega arith)
  drop-append_past (x ∷ xs) ys n =
      ap (λ m. drop m (x ∷ (xs ++ ys)))
        (let e : suc (length xs) + n ≡ suc (length xs + n) = omega arith in e)
      ∙ drop-append_past xs ys n

  drop-all : (n : ℕ) (xs : List A) → length xs ≤ n → drop n xs ≡ []
  drop-all zero [] h = refl
  drop-all zero (x ∷ xs) h = absurd (omega arith)
  drop-all (suc n) [] h = refl
  drop-all (suc n) (x ∷ xs) h = drop-all n xs (omega arith)

  drop-map {κ} :
      {B : Type κ} (f : A → B) (n : ℕ) (xs : List A) → drop n (map f xs) ≡ map f (drop n xs)
  drop-map f zero xs = refl
  drop-map f (suc n) [] = refl
  drop-map f (suc n) (x ∷ xs) = drop-map f n xs

  length-map {κ} : {B : Type κ} (f : A → B) (xs : List A) → length (map f xs) ≡ length xs
  length-map f [] = refl
  length-map f (x ∷ xs) = omega (arith, length-map f xs)

  map-append {κ} :
      {B : Type κ} (f : A → B) (xs ys : List A) → map f (xs ++ ys) ≡ map f xs ++ map f ys
  map-append f [] ys = refl
  map-append f (x ∷ xs) ys = ap (λ l. f x ∷ l) (map-append f xs ys)

module _ {ℓ} {A : Type ℓ} where
  case_true : {b : Bool} {x : A} (y : A) → b ≡ true → (elim b [ true ↦ x | false ↦ y ]) ≡ x
  case_true {b = true} y e = refl
  case_true {b = false} y e = cc e

  case_false : {b : Bool} (x : A) {y : A} → b ≡ false → (elim b [ true ↦ x | false ↦ y ]) ≡ y
  case_false {b = true} x e = cc e
  case_false {b = false} x e = refl

ltb-false : (a b : ℕ) → b ≤ a → ltb a b ≡ false
ltb-false a b h = ground arith

All-append_left : (xs ys : List Bytes) → All IsLine (xs ++ ys) → All IsLine xs × All IsLine ys
All-append_left [] ys h = (tt, h)
All-append_left (x ∷ xs) ys (h, hs) =
    let (left, right) = All-append_left xs ys hs in ((h, left), right)

-- A document's part of the rows from `row` on.
record Slice (from : ℕ) (d : SimpleResultSetRecord) (rows : List Bytes) (row : ℕ) : Type 0 where
  here : List Bytes
  packet : IsPacket d here
  are_lines : All IsLine here
  low : from ≤ d.start_row
  high : d.end_row ≤ from + length rows
  slice : drop (row - from) rows ≡ drop (row - d.start_row) here ++ drop (d.end_row - from) rows

Packed-Slice :
    (from : ℕ) (ds : List SimpleResultSetRecord) (rows : List Bytes) (d : SimpleResultSetRecord)
    (row : ℕ)
    → Packed from ds rows
    → All IsLine rows
    → In d ds
    → Covers row d
    → Slice from d rows row
Packed-Slice from [] rows d row packed ls member covers = absurd member
Packed-Slice from (e ∷ ds) rows d row (here, later, split, starts, packet, rest) ls (inl same)
      covers =
    let packet_d = subst (λ x. IsPacket x here) (sym same) packet in
    let starts_d : d.start_row ≡ from =
      ap (λ (x : SimpleResultSetRecord). x.start_row) same ∙ starts in
    let both = All-append_left here later (subst (All IsLine) split ls) in
    record {
      here = here;
      packet = packet_d;
      are_lines = both.0;
      low = omega (arith, starts_d);
      high = omega (arith, starts_d, packet_d.end_row, ap length split, length-append here later);
      slice =
          ap (drop (row - from)) split
          ∙ drop-append (row - from) here later
              (omega (arith, starts_d, packet_d.end_row, covers.1))
          ∙ ap (λ n. drop n here ++ later) (omega (arith, starts_d))
          ∙ ap (λ l. drop (row - d.start_row) here ++ l)
              (sym (
                ap (drop (d.end_row - from)) split
                ∙ ap (λ n. drop n (here ++ later)) (omega (arith, starts_d, packet_d.end_row))
                ∙ drop-append_past here later 0));
    }
Packed-Slice from (e ∷ ds) rows d row (here, later, split, starts, packet, rest) ls (inr member)
      covers =
    let both = All-append_left here later (subst (All IsLine) split ls) in
    let s = Packed-Slice (from + length here) ds later d row rest both.1 member covers in
    record {
      here = s.here;
      packet = s.packet;
      are_lines = s.are_lines;
      low = omega (arith, s.low);
      high = omega (arith, s.high, ap length split, length-append here later);
      slice =
          ap (drop (row - from)) split
          ∙ ap (λ n. drop n (here ++ later)) (omega (arith, s.low, covers.0))
          ∙ drop-append_past here later (row - (from + length here))
          ∙ s.slice
          ∙ ap (λ l. drop (row - d.start_row) s.here ++ l)
              (sym (
                ap (drop (d.end_row - from)) split
                ∙ ap (λ n. drop n (here ++ later)) (omega (arith, s.low, s.packet.end_row))
                ∙ drop-append_past here later (d.end_row - (from + length here))));
    }

module _ {ℓ} {A : Type ℓ} (send : Bytes → List A) where
  consume-take :
      (start : ℕ) (ls : List Bytes)
      → consume send start start ls ≡ (concat (map send ls), start + length ls)
  unfolding consume
  consume-take start [] = ap (λ n. ([], n)) (omega arith)
  consume-take start (l ∷ ls) =
      let later = consume-take (start + 1) ls in
      case_false _ (ltb-false start start (omega arith))
      ∙ ap (λ (t : List A × ℕ). (send l ++ t.0, t.1)) later
      ∙ ap {B = List A × ℕ} (λ n. (send l ++ concat (map send ls), n)) (omega arith)

  consume-skip :
      (start row : ℕ) (ls : List Bytes)
      → start ≤ row
      → row ≤ start + length ls
      → consume send start row ls ≡ (concat (map send (drop (row - start) ls)), start + length ls)
  unfolding consume
  consume-skip start row [] low high =
      ap {B = List A × ℕ} (λ n. ([], n)) (omega arith)
      ∙ ap {B = List A × ℕ} (λ l. (concat (map send l), start + 0))
          (sym (drop-all (row - start) [] (omega arith)))
  consume-skip start row (l ∷ ls) low high = elim (Bool-cases (ltb start row)) [
    | inl before ↦
        let less = ltb→lt start row before in
        case_true _ before
        ∙ consume-skip (start + 1) row ls (omega arith) (omega arith)
        ∙ ap {B = List A × ℕ} (λ n. (concat (map send (drop (row - (start + 1)) ls)), n))
            (omega arith)
        ∙ ap {B = List A × ℕ} (λ n. (concat (map send (drop n (l ∷ ls))), start + suc (length ls)))
            (let e : suc (row - (start + 1)) ≡ row - start = omega arith in e)
    | inr reached ↦
        let same : row ≡ start = ground (arith, reached, low) in
        ap (λ n. consume send start n (l ∷ ls)) same
        ∙ consume-take start (l ∷ ls)
        ∙ ap {B = List A × ℕ} (λ n. (concat (map send (drop n (l ∷ ls))), start + suc (length ls)))
            (let e : 0 ≡ row - start = omega (arith, same) in e)
  ]

-- The index answers a query for the packet of a row with documents of the result set that hold the
-- row, at least one if there is one.
pub record IsAnswering (index : Index) (docs : List SimpleResultSetRecord) : Type 0 where
  pub hits : ℕ → List SimpleResultSetRecord
  pub answers : (row : ℕ) → index.query_packet row ≡ ok (hits row)
  pub sound : (row : ℕ) → All (λ d. In d docs × Covers row d) (hits row)
  pub complete : (row : ℕ) (d : SimpleResultSetRecord) → In d docs → Covers row d → hits row ≢ []

module _ {ℓ} {A : Type ℓ} (send : Bytes → List A) (index : Index) where
  -- What is sent for the rows.
  abbrev pub sent_for : List Bytes → List A
  sent_for rs = concat (map send (map with_newline rs))

  read_packet-Slice :
      (again : ℕ → Option (List A)) (rs : List Bytes) (d : SimpleResultSetRecord) (row : ℕ)
      → Covers row d
      → Slice 0 d rs row
      → again d.end_row ≡ some (sent_for (drop d.end_row rs))
      → read_packet send again row (ok d) ≡ some (sent_for (drop row rs))
  unfolding read_packet
  read_packet-Slice again rs d row covers s rest =
      let part = drop (row - d.start_row) s.here in
      ap (λ ls. let t = consume send d.start_row row ls in then_send t.0 (again t.1))
        (ap lines s.packet.data_rows ∙ lines-unlines s.here s.are_lines)
      ∙ ap {B = Option (List A)} (λ (t : List A × ℕ). then_send t.0 (again t.1))
          (consume-skip send d.start_row row (map with_newline s.here) covers.0
            (omega (arith, covers.1, s.packet.end_row, length-map with_newline s.here)))
      ∙ ap {B = Option (List A)}
          (λ ls.
            then_send (concat (map send ls))
              (again (d.start_row + length (map with_newline s.here))))
          (drop-map with_newline (row - d.start_row) s.here)
      ∙ ap {B = Option (List A)} (λ n. then_send (sent_for part) (again n))
          (let e : d.start_row + length (map with_newline s.here) ≡ d.end_row =
              omega (arith, s.packet.end_row, length-map with_newline s.here) in
            e)
      ∙ ap (then_send (sent_for part)) rest
      ∙ ap some (
          sym (
            ap sent_for (
              ap (λ n. drop n rs) (let e : row ≡ row - 0 = omega arith in e)
              ∙ s.slice
              ∙ ap (λ n. part ++ drop n rs) (let e : d.end_row - 0 ≡ d.end_row = omega arith in e))
            ∙ ap (λ ls. concat (map send ls)) (map-append with_newline part (drop d.end_row rs))
            ∙ ap concat
                (map-append send (map with_newline part) (map with_newline (drop d.end_row rs)))
            ∙ concat-append (map send (map with_newline part))
                (map send (map with_newline (drop d.end_row rs)))))

  module _ (docs : List SimpleResultSetRecord) (rs : List Bytes) (packed : Packed 0 docs rs)
      (are_lines : All IsLine rs) (answering : IsAnswering index docs) where
    read_nothing :
        (again : ℕ → Option (List A)) (row : ℕ)
        → drop row rs ≡ []
        → read_packet send again row (err "Not found") ≡ some (sent_for (drop row rs))
    unfolding read_packet
    read_nothing again row none_left = ap (λ l. some (sent_for l)) (sym none_left)

    -- A round with the answer of the index.
    read_packet-hits :
        (again : ℕ → Option (List A)) (row : ℕ) (hits : List SimpleResultSetRecord)
        → row ≤ length rs
        → All (λ d. In d docs × Covers row d) hits
        → ((d : SimpleResultSetRecord) → In d docs → Covers row d → hits ≢ [])
        → ((next : ℕ) → row < next → next ≤ length rs → again next ≡ some (sent_for (drop next rs)))
        → read_packet send again row (first_hit (ok hits)) ≡ some (sent_for (drop row rs))
    read_packet-hits again row [] low sound complete rest =
        elim (Bool-cases (ltb row (length rs))) [
          | inl more ↦
              let (d, member, covers) =
                Packed-Covers 0 docs rs row packed (omega arith) (ground (arith, more)) in
              absurd (complete d member covers refl)
          | inr at_end ↦ read_nothing again row (drop-all row rs (ground (arith, at_end)))
        ]
    read_packet-hits again row (d ∷ hits) low ((member, covers), sound) complete rest =
        let s = Packed-Slice 0 docs rs d row packed are_lines member covers in
        read_packet-Slice again rs d row covers s (rest d.end_row covers.1 (omega (arith, s.high)))

    get_packet-hits : (row : ℕ) → get_packet index row ≡ first_hit (ok (answering.hits row))
    unfolding get_packet
    get_packet-hits row = ap first_hit (answering.answers row)

    -- Reading from a row on ends, and sends what there is for the rows from there, each once and in
    -- order: the documents hold the rows, the index answers with them, the metadata has the number
    -- of the rows, and one round for each row that is left, and one more, are allowed.
    pub read_rows_exact :
        (fuel : ℕ) (last : Option ℕ) (row : ℕ)
        → row ≤ length rs
        → length rs - row < fuel
        → is_last last row ≡ false
        → read_rows index (pos (length rs)) send fuel last row ≡ some (sent_for (drop row rs))
    unfolding read_rows read_enough is_last
    read_rows_exact zero last row low enough fresh = absurd (omega arith)
    read_rows_exact (suc fuel) last row low enough fresh =
        if_false _ fresh ∙ elim (Bool-cases (read_enough (pos (length rs)) row)) [
          | inl finished ↦
              if_true _ finished
              ∙ ap (λ l. some (sent_for l)) (sym (drop-all row rs (ground (arith, finished))))
          | inr more ↦
              if_false _ more
              ∙ ap (read_packet send (read_rows index (pos (length rs)) send fuel (some row)) row)
                  (get_packet-hits row)
              ∙ read_packet-hits (read_rows index (pos (length rs)) send fuel (some row)) row
                  (answering.hits row) low (answering.sound row) (answering.complete row)
                  (λ next after within.
                    read_rows_exact fuel (some row) next within (omega arith) (ground arith))
        ]
