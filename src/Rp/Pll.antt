-- ===== src/Rp/Pll.antt =====
-- embassy-rp/src/pll.rs: the dividers of a phase-locked loop. A panic is `none`; the loop that waits
-- for the lock does not change the registers, and is taken to end.
mod Divides
mod Tests
use embassy.Base.{
  ℕ, ◌*◌, ◌/◌, Bool, true, false, ◌&&◌, Option, none, some, leb, ◌==◌, if◌then◌else◌,
}
use embassy.Base.Options.{◌>>=◌}

abbrev pub xosc_mhz : ℕ
xosc_mhz = 12

-- The registers CS, PWR, FBDIV_INT and PRIM.
pub record Pll : Type 0 where
  pub refdiv : ℕ
  pub vcopd : Bool
  pub postdivpd : Bool
  pub dsmpd : Bool
  pub pd : Bool
  pub fbdiv : ℕ
  pub postdiv1 : ℕ
  pub postdiv2 : ℕ

-- The first writes: everything is powered off.
abbrev pub power_off : Pll → Pll
power_off r = record r { vcopd = true; postdivpd = true; dsmpd = true; pd = true; fbdiv = 0 }

abbrev pub divide : ℕ → ℕ → Option ℕ
divide a b = if b == 0 then none else some (a / b)

-- The three asserts on the dividers, and the one on the reference.
abbrev pub allowed : ℕ → ℕ → ℕ → ℕ → ℕ → Bool
allowed ref_mhz vco_freq fbdiv post_div1 post_div2 =
    (leb 16 fbdiv && leb fbdiv 520)
    && ((leb 1 post_div1 && leb post_div1 7) && (leb 1 post_div2 && leb post_div2 7))
    && leb post_div2 post_div1
    && leb ref_mhz (vco_freq / 16)

unfoldable pub configure : ℕ → ℕ → ℕ → ℕ → Pll → Option Pll
configure refdiv vco_freq post_div1 post_div2 r = do
  ref_mhz ← divide xosc_mhz refdiv
  fbdiv ← divide vco_freq (ref_mhz * 1_000_000)
  if allowed ref_mhz vco_freq fbdiv post_div1 post_div2
      then some (record (power_off r) {
        refdiv = ref_mhz;
        fbdiv = fbdiv;
        pd = false;
        vcopd = false;
        postdiv1 = post_div1;
        postdiv2 = post_div2;
        postdivpd = false;
      })
      else none
