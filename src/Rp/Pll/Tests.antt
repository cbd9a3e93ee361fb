-- ===== src/Rp/Pll/Tests.antt =====
-- The theorem on the phase-locked loop at the values that system.rs gives.
use embassy.Base.{◌*◌, ◌≤◌, ◌<◌, ◌≡◌, ◌⊎◌, true, false, none, some}
use embassy.Rp.Pll.{Pll, configure}
use embassy.Rp.Pll.Divides.{vco_hz, IsPost, configure_lem}

abbrev reset_pll : Pll
reset_pll = record {
  refdiv = 1;
  vcopd = true;
  postdivpd = true;
  dsmpd = true;
  pd = true;
  fbdiv = 0;
  postdiv1 = 7;
  postdiv2 = 7;
}

configure_lem_example :
    ((configure 1 1_500_000_000 6 2 reset_pll ≡ none)
      × ((1_500_000_000 < 16 * 12_000_000)
          ⊎ ((521 * 12_000_000 ≤ 1_500_000_000) ⊎ ((2 < 1) ⊎ ((6 < 2) ⊎ (7 < 6))))))
    ⊎ ((r' : Pll) × (configure 1 1_500_000_000 6 2 reset_pll ≡ some r')
        × (16 * 12_000_000 ≤ 1_500_000_000)
        × (1_500_000_000 < 521 * 12_000_000)
        × IsPost 6 2
        × (r'.fbdiv ≡ 125)
        × (r'.refdiv ≡ 12)
        × (vco_hz r' ≡ 125_000_000)
        × (r'.pd ≡ false)
        × (r'.vcopd ≡ false)
        × (r'.postdivpd ≡ false)
        × ((r'.postdiv1 ≡ 6) × (r'.postdiv2 ≡ 2)))
configure_lem_example = configure_lem 1_500_000_000 6 2 reset_pll
