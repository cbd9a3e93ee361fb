-- ===== src/Nrf/Qspi/Bytes.antt =====
-- How the bytes of a custom instruction go through the two registers for its data.
use embassy.Base.{
  ℕ, ◌-◌, ◌≤◌, ◌<◌, ◌≡◌, refl, ◌⊎◌, inl, inr, List, [], ◌∷◌, ◌++◌, arith, length, take, drop,
}
use embassy.Nrf.Qspi.{byte_of, response_round, response_word, response}

abbrev pub bytes_of_word : ℕ → List ℕ
bytes_of_word dat = byte_of dat 0 ∷ byte_of dat 1 ∷ byte_of dat 2 ∷ byte_of dat 3 ∷ []

-- A response of at most 4 bytes is filled from the first word. In one of 5 to 8 bytes the bytes of
-- the second word go to its front, over those of the first, and those from the fifth on stay.
pub response_lem :
    (dat0 dat1 : ℕ) (resp : List ℕ)
    → length resp ≤ 8
    → ((length resp ≤ 4) × (response dat0 dat1 resp ≡ take (length resp) (bytes_of_word dat0)))
      ⊎ ((4 < length resp)
          × (response dat0 dat1 resp
              ≡ take (length resp - 4) (bytes_of_word dat1)
                ++ drop (length resp - 4) (bytes_of_word dat0)
                ++ drop 4 resp))
unfolding response response_word response_round
response_lem dat0 dat1 [] h = inl (omega arith, refl)
response_lem dat0 dat1 (a ∷ []) h = inl (omega arith, refl)
response_lem dat0 dat1 (a ∷ b ∷ []) h = inl (omega arith, refl)
response_lem dat0 dat1 (a ∷ b ∷ c ∷ []) h = inl (omega arith, refl)
response_lem dat0 dat1 (a ∷ b ∷ c ∷ d ∷ []) h = inl (omega arith, refl)
response_lem dat0 dat1 (a ∷ b ∷ c ∷ d ∷ e ∷ []) h = inr (omega arith, refl)
response_lem dat0 dat1 (a ∷ b ∷ c ∷ d ∷ e ∷ f ∷ []) h = inr (omega arith, refl)
response_lem dat0 dat1 (a ∷ b ∷ c ∷ d ∷ e ∷ f ∷ g ∷ []) h = inr (omega arith, refl)
response_lem dat0 dat1 (a ∷ b ∷ c ∷ d ∷ e ∷ f ∷ g ∷ i ∷ []) h = inr (omega arith, refl)
response_lem dat0 dat1 (a ∷ b ∷ c ∷ d ∷ e ∷ f ∷ g ∷ i ∷ j ∷ l) h = absurd (omega arith)
