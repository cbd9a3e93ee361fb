-- ===== src/Rp/Uart/Sent.antt =====
-- What becomes of the data that is sent.
use embassy.Base.{
  ℕ, zero, suc, ◌+◌, ◌-◌, ◌≤◌, ◌<◌, ◌≡◌, refl, sym, ap, ◌∙◌, inl, inr, List, [], ◌∷◌, ◌++◌,
  append-nil, append_assoc, arith, leb, if◌then◌else◌, le-or-lt, length, take, length-append,
}
use embassy.Rp.Uart.{Uart, send}

take-nil : (n : ℕ) → take {A = ℕ} n [] ≡ []
take-nil zero = refl
take-nil (suc n) = refl

queued-full :
    (depth byte : ℕ) (fifo : List ℕ)
    → depth ≤ length fifo
    → (if leb depth (length fifo) then fifo else fifo ++ (byte ∷ [])) ≡ fifo
queued-full depth byte fifo full = ground arith

queued-room :
    (depth byte : ℕ) (fifo : List ℕ)
    → length fifo < depth
    → (if leb depth (length fifo) then fifo else fifo ++ (byte ∷ [])) ≡ fifo ++ (byte ∷ [])
queued-room depth byte fifo room = ground arith

abbrev with_fifo : List ℕ → Uart → Uart
with_fifo q u = record u { fifo = q }

-- If no byte leaves the transmitter meanwhile, then of the data those bytes are queued, in order,
-- that it has room for, and the rest is lost.
send_drops :
    (depth : ℕ) (bytes : List ℕ) (u : Uart)
    → length u.fifo ≤ depth
    → (send depth (λ i. 0) bytes u).fifo ≡ u.fifo ++ take (depth - length u.fifo) bytes
unfolding send
send_drops depth [] u room =
    sym (ap (λ l. u.fifo ++ l) (take-nil (depth - length u.fifo)) ∙ append-nil u.fifo)
send_drops depth (byte ∷ bytes) u room = elim (le-or-lt depth (length u.fifo)) [
  | inl full ↦
      let no_room : depth - length u.fifo ≡ 0 = omega arith in
      ap (λ q. (send depth (λ i. 0) bytes (with_fifo q u)).fifo)
        (queued-full depth byte u.fifo full)
      ∙ send_drops depth bytes u room
      ∙ rw no_room refl
  | inr some_room ↦
      let longer : length (u.fifo ++ (byte ∷ [])) ≡ length u.fifo + 1 =
        length-append u.fifo (byte ∷ []) in
      let one : depth - length u.fifo ≡ suc (depth - (length u.fifo + 1)) = omega arith in
      ap (λ q. (send depth (λ i. 0) bytes (with_fifo q u)).fifo)
        (queued-room depth byte u.fifo some_room)
      ∙ send_drops depth bytes (with_fifo (u.fifo ++ (byte ∷ [])) u) (omega (arith, longer))
      ∙ ap (λ n. (u.fifo ++ (byte ∷ [])) ++ take (depth - n) bytes) longer
      ∙ append_assoc u.fifo (byte ∷ []) (take (depth - (length u.fifo + 1)) bytes)
      ∙ sym (ap (λ n. u.fifo ++ take n (byte ∷ bytes)) one)
]
