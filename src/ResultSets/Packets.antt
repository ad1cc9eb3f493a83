-- ===== src/ResultSets/Packets.antt =====
-- The documents of a result set: which rows each of them holds.
use cloudvelo.Prelude.{
  ℕ, List, [], ◌∷◌, ◌++◌, ◌+◌, ◌≤◌, ◌<◌, nat_eq, ltb, length, map, All, In, ◌≡◌, ◌≢◌, refl, ap, sym,
  ◌∙◌, inl, inr, arith, append-nil, append_assoc, length-append, Bool-cases, if_false,
}
use cloudvelo.ResultSets.Writer.{Bytes, SimpleResultSetRecord}
use cloudvelo.ResultSets.Reader.{lines, cons_line}

-- A row's text has no newline.
abbrev pub IsLine : Bytes → Type 0
IsLine row = All (λ b. b ≢ 10) row

-- The row as the reader sends it.
abbrev pub with_newline : Bytes → Bytes
with_newline row = row ++ 10 ∷ []

-- What the buffer holds for these rows.
abbrev pub unlines : List Bytes → Bytes
unlines [] = []
unlines (row ∷ rows) = with_newline row ++ unlines rows

pub unlines-append : (xs ys : List Bytes) → unlines (xs ++ ys) ≡ unlines xs ++ unlines ys
unlines-append [] ys = refl
unlines-append (x ∷ xs) ys =
    ap (λ bs. with_newline x ++ bs) (unlines-append xs ys)
    ∙ sym (append_assoc (with_newline x) (unlines xs) (unlines ys))

lines-row :
    (row : Bytes) (later : Bytes)
    → IsLine row
    → lines (with_newline row ++ later) ≡ with_newline row ∷ lines later
unfolding lines
lines-row [] later h = refl
lines-row (b ∷ row) later (not_newline, h) = elim (Bool-cases (nat_eq b 10)) [
  | inl same ↦ absurd (not_newline (ground (arith, same)))
  | inr other ↦ if_false _ other ∙ ap (cons_line b) (lines-row row later h)
]

-- The reader finds the rows of a buffer again.
pub lines-unlines :
    (rows : List Bytes) → All IsLine rows → lines (unlines rows) ≡ map with_newline rows
unfolding lines
lines-unlines [] h = refl
lines-unlines (row ∷ rows) (h, hs) =
    lines-row row (unlines rows) h ∙ ap (λ ls. with_newline row ∷ ls) (lines-unlines rows hs)

-- The document holds these rows, and there are some.
pub record IsPacket (d : SimpleResultSetRecord) (rows : List Bytes) : Type 0 where
  pub data_rows : d.json_data ≡ unlines rows
  pub end_row : d.end_row ≡ d.start_row + length rows
  pub some_row : 0 < length rows

-- The documents hold these rows, one after the other, from a row on.
abbrev pub Packed : ℕ → List SimpleResultSetRecord → List Bytes → Type 0
Packed from [] rows = rows ≡ []
Packed from (d ∷ ds) rows =
    (here : List Bytes) × (later : List Bytes) × (rows ≡ here ++ later)
    × (d.start_row ≡ from)
    × IsPacket d here
    × Packed (from + length here) ds later

pub Packed-snoc :
    (from : ℕ) (ds : List SimpleResultSetRecord) (d : SimpleResultSetRecord)
    (rows more : List Bytes)
    → Packed from ds rows
    → d.start_row ≡ from + length rows
    → IsPacket d more
    → Packed from (ds ++ d ∷ []) (rows ++ more)
Packed-snoc from [] d rows more nothing starts packet = (
  more,
  [],
  rw nothing (sym (append-nil more)),
  omega (arith, starts, ap length nothing),
  packet,
  refl,
)
Packed-snoc from (e ∷ ds) d rows more (here, later, split, starts_e, packet_e, rest) starts packet =
    (
      here,
      later ++ more,
      ap (λ r. r ++ more) split ∙ append_assoc here later more,
      starts_e,
      packet_e,
      Packed-snoc (from + length here) ds d later more rest
          (omega (arith, starts, ap length split, length-append here later)) packet,
    )

-- The document holds this row.
abbrev pub Covers : ℕ → SimpleResultSetRecord → Type 0
Covers row d = (d.start_row ≤ row) × (row < d.end_row)

-- Every row is in a document.
pub Packed-Covers :
    (from : ℕ) (ds : List SimpleResultSetRecord) (rows : List Bytes) (row : ℕ)
    → Packed from ds rows
    → from ≤ row
    → row < from + length rows
    → (d : SimpleResultSetRecord) × In d ds × Covers row d
Packed-Covers from [] rows row nothing low high = absurd (omega (arith, ap length nothing))
Packed-Covers from (d ∷ ds) rows row (here, later, split, starts, packet, rest) low high =
    elim (Bool-cases (ltb row (from + length here))) [
      | inl within ↦
          (d, inl refl, (omega (arith, starts), ground (arith, within, packet.end_row, starts)))
      | inr beyond ↦
          let (e, member, covers) =
            Packed-Covers (from + length here) ds later row rest (ground (arith, beyond))
              (omega (arith, ap length split, length-append here later)) in
          (e, inr member, covers)
    ]
