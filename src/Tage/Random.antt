-- ===== src/Tage/Random.antt =====
-- `MYRANDOM` (cbp2016_tage_sc_l.h). The seed afterwards is the result: the callers read its low bits.
use ternary_geo_bp.Base.{ℕ, ◌+◌, u64, ◌<<<◌, ◌>>>◌, ◌^^^◌, extend}

unfoldable pub myrandom : ℕ → ℕ → ℕ → ℕ
myrandom seed phist ptghist =
    let s1 = u64 (seed + 1) ^^^ phist in
    let s2 = u64 ((s1 >>> 21) + u64 (s1 <<< 11)) in
    let s3 = s2 ^^^ extend ptghist in u64 ((s3 >>> 10) + u64 (s3 <<< 22))
