-- ===== src/Stat/Doubles.antt =====
-- The medians of demo/spcam/sdfred20100528/mosaic/libsrc/sub_statd.c, whose text is that of sub_stat.c at
-- doubles.
use pwrake.Prelude.{ℕ, List, Option}
use pwrake.Sort.Order.{Ranked}
use pwrake.Stat.{floatmedian, floatquartile0, floatquartile2, float_mad, floatweightedmedian}

module _ {D : Type 0} ⦃o : Ranked D⦄ (mix : D → D → ℕ → ℕ → D) where
  pub doublemedian : ℕ → List D → Option D
  unfolding floatmedian
  doublemedian = floatmedian mix

  pub doublequartile0 : ℕ → List D → Option D
  unfolding floatquartile0
  doublequartile0 = floatquartile0 mix

  pub doublequartile2 : ℕ → List D → Option D
  unfolding floatquartile2
  doublequartile2 = floatquartile2 mix

  pub double_mad : (D → D → D) → ℕ → List D → Option D
  unfolding float_mad
  double_mad apart = float_mad mix apart

module _ {D : Type 0} ⦃o : Ranked D⦄ (zero_sum : D) (plus : D → D → D) (half : D → D) where
  pub doubleweightedmedian : ℕ → List (D × D) → Option D
  unfolding floatweightedmedian
  doubleweightedmedian = floatweightedmedian zero_sum plus half
