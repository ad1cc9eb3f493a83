-- ===== src/ResultSets/Reader.antt =====
-- result_sets/simple/reader.go: the reader.
use cloudvelo.Prelude.{
  ℤ, pos, negsuc, ℕ, zero, suc, List, [], ◌∷◌, ◌++◌, ◌+◌, Bool, true, false, ◌&&◌, if◌then◌else◌,
  ltb, leb, nat_eq, Result, ok, err, Option, none, some,
}
use cloudvelo.ResultSets.Writer.{Bytes, SimpleResultSetRecord, ResultSetMetadataRecord}

-- The index: the documents that it answers with for the packet of a row.
pub record Index : Type 0 where
  pub query_packet : ℕ → Result (List SimpleResultSetRecord)

-- `getPacket`
abbrev pub first_hit : Result (List SimpleResultSetRecord) → Result SimpleResultSetRecord
first_hit (err e) = err e
first_hit (ok []) = err "Not found"
first_hit (ok (d ∷ ds)) = ok d

unfoldable pub get_packet : Index → ℕ → Result SimpleResultSetRecord
get_packet index row = first_hit (index.query_packet row)

abbrev pub cons_line : ℕ → List Bytes → List Bytes
cons_line b [] = (b ∷ []) ∷ []
cons_line b (line ∷ rest) = (b ∷ line) ∷ rest

-- What the calls of `ReadBytes('\n')` return, up to the end of the packet.
unfoldable pub lines : Bytes → List Bytes
lines [] = []
lines (b ∷ bytes) =
    let later = lines bytes in if nat_eq b 10 then (b ∷ []) ∷ later else cons_line b later

-- "We read enough rows"
unfoldable pub read_enough : ℤ → ℕ → Bool
read_enough (pos end) row = ltb 0 end && leb end row
read_enough (negsuc n) row = false

-- "No progress has been made something is wrong." Before the first packet the last row is -1.
unfoldable pub is_last : Option ℕ → ℕ → Bool
is_last none row = false
is_last (some last) row = nat_eq last row

module _ {ℓ} {A : Type ℓ} where
  -- The inner loop over the lines of a packet: what it sends to the channel, and the next row.
  -- `send` is what becomes of a line.
  unfoldable pub consume : (Bytes → List A) → ℕ → ℕ → List Bytes → List A × ℕ
  consume send start row [] = ([], row)
  consume send start row (line ∷ rest) = elim (ltb start row) [
    | true ↦ consume send (start + 1) row rest
    | false ↦ let taken = consume send (start + 1) (row + 1) rest in (send line ++ taken.0, taken.1)
  ]

  abbrev pub then_send : List A → Option (List A) → Option (List A)
  then_send sent none = none
  then_send sent (some later) = some (sent ++ later)

  -- What a round of the outer loop does with its packet; `again` is the next round.
  unfoldable pub read_packet :
      (Bytes → List A) → (ℕ → Option (List A)) → ℕ → Result SimpleResultSetRecord → Option (List A)
  read_packet send again row (err e) = some []
  read_packet send again row (ok packet) =
      let taken = consume send packet.start_row row (lines packet.json_data) in
      then_send taken.0 (again taken.1)

  -- The outer loop of `Rows` and `JSON` on fuel, `none` where the fuel ran out. The context is not
  -- cancelled, and the channel is read to its end.
  unfoldable pub read_rows : Index → ℤ → (Bytes → List A) → ℕ → Option ℕ → ℕ → Option (List A)
  read_rows index end send zero last row = none
  read_rows index end send (suc fuel) last row =
      let rest =
        read_packet send (read_rows index end send fuel (some row)) row (get_packet index row) in
      if is_last last row then some [] else if read_enough end row then some [] else rest

-- `JSON` sends the lines as they are.
unfoldable pub json : Index → ResultSetMetadataRecord → ℕ → ℕ → Option (List Bytes)
json index md fuel row = read_rows index md.end_row (λ line. line ∷ []) fuel none row

abbrev pub decoded {ℓ} : {A : Type ℓ} → Result A → List A
decoded (ok row) = row ∷ []
decoded (err e) = []

-- `Rows` decodes them, and passes over those that it cannot decode.
unfoldable pub rows {ℓ} :
    {A : Type ℓ} → (Bytes → Result A) → Index → ResultSetMetadataRecord → ℕ → ℕ → Option (List A)
rows decode index md fuel row =
    read_rows index md.end_row (λ line. decoded (decode line)) fuel none row
