-- ===== src/Rp/Pll/Divides.antt =====
-- When the loop is configured, and at what rate it then runs.
use embassy.Base.{
  ℕ, ◌*◌, ◌/◌, ◌≤◌, ◌<◌, ◌≡◌, refl, ◌⊎◌, inl, inr, true, false, none, some, arith, Bool-cases,
}
use embassy.Rp.Pll.{xosc_mhz, Pll, allowed, configure}

-- The rate of the oscillator of the loop, in Hz, by the chip's registers: the reference is the crystal
-- divided by REFDIV.
abbrev pub vco_hz : Pll → ℕ
vco_hz r = xosc_mhz * 1_000_000 / r.refdiv * r.fbdiv

-- The post dividers that are allowed.
abbrev pub IsPost : ℕ → ℕ → Type 0
IsPost d1 d2 = (1 ≤ d2) × (d2 ≤ d1) × (d1 ≤ 7)

allowed-bounds :
    (vco d1 d2 : ℕ)
    → allowed 12 vco (vco / 12_000_000) d1 d2 ≡ true
    → (16 * 12_000_000 ≤ vco) × (vco < 521 * 12_000_000) × IsPost d1 d2
allowed-bounds vco d1 d2 ok =
    (ground arith, ground arith, (ground arith, ground arith, ground arith))

refused :
    (vco d1 d2 : ℕ)
    → allowed 12 vco (vco / 12_000_000) d1 d2 ≡ false
    → (vco < 16 * 12_000_000) ⊎ ((521 * 12_000_000 ≤ vco) ⊎ ((d2 < 1) ⊎ ((d1 < d2) ⊎ (7 < d1))))
refused vco d1 d2 panics = ground arith

-- With the reference divider 1, `configure` panics exactly if the rate is not from 16 to below 521
-- times 12 MHz, or if the post dividers are not from 1 to 7 with the second at most the first. Otherwise the
-- loop is powered, and its feedback divider is the one for the rate; but REFDIV is 12, so that the
-- loop runs at the twelfth part of the rate, rounded down to MHz.
pub configure_lem :
    (vco d1 d2 : ℕ) (r : Pll)
    → ((configure 1 vco d1 d2 r ≡ none)
        × ((vco < 16 * 12_000_000)
            ⊎ ((521 * 12_000_000 ≤ vco) ⊎ ((d2 < 1) ⊎ ((d1 < d2) ⊎ (7 < d1))))))
      ⊎ ((r' : Pll) × (configure 1 vco d1 d2 r ≡ some r')
          × (16 * 12_000_000 ≤ vco)
          × (vco < 521 * 12_000_000)
          × IsPost d1 d2
          × (r'.fbdiv ≡ vco / 12_000_000)
          × (r'.refdiv ≡ 12)
          × (vco_hz r' ≡ vco / 12_000_000 * 1_000_000)
          × (r'.pd ≡ false)
          × (r'.vcopd ≡ false)
          × (r'.postdivpd ≡ false)
          × ((r'.postdiv1 ≡ d1) × (r'.postdiv2 ≡ d2)))
unfolding configure
configure_lem vco d1 d2 r = elim (Bool-cases (allowed 12 vco (vco / 12_000_000) d1 d2)) [
  | inl ok ↦
      let (lo, hi, post) = allowed-bounds vco d1 d2 ok in
      rw ok
        (inr (set_up, refl, lo, hi, post, refl, refl, omega arith, refl, refl, refl, (refl, refl)))
  | inr panics ↦ rw panics (inl (refl, refused vco d1 d2 panics))
]
  where
    set_up : Pll
    set_up = record r {
      refdiv = 12;
      dsmpd = true;
      fbdiv = vco / 12_000_000;
      pd = false;
      vcopd = false;
      postdiv1 = d1;
      postdiv2 = d2;
      postdivpd = false;
    }
