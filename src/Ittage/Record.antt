-- ===== src/Ittage/Record.antt =====
-- `HistoryUpdate` (lib/ittage.h).
use ternary_geo_bp.Base.{
  ℕ, zero, suc, ◌+◌, ◌-◌, ◌%◌, ◌^◌, set, u32, u64, half32, ◌<<<◌, ◌>>>◌, ◌&&&◌, ◌^^^◌, low_mask,
}
use ternary_geo_bp.Tage.{histbufferlength}
use ternary_geo_bp.Tage.Record.{update_folds}
use ternary_geo_bp.Ittage.{Predictor, phistwidth}

-- One round of the loop: a bit of T and seven bits of PATH.
unfoldable pub push_bit : ℕ → ℕ → Predictor → Predictor
push_bit t path p =
    let y = u32 (p.ptghist + 2 ^ 32 - 1) in
    let ghist = set p.ghist (y &&& (histbufferlength - 1)) (t % 2) in
    record p {
      ptghist = y;
      ghist = ghist;
      phist = u64 (p.phist <<< 1) ^^^ (path &&& 127);
      ch_i = update_folds ghist y p.ch_i;
      ch_t0 = update_folds ghist y p.ch_t0;
      ch_t1 = update_folds ghist y p.ch_t1;
    }

unfoldable pub push_bits : ℕ → ℕ → ℕ → Predictor → Predictor
push_bits zero t path p = p
push_bits (suc n) t path p = push_bits n (half32 t) (half32 path) (push_bit t path p)

-- `HistoryUpdate`
unfoldable pub history_update : Predictor → ℕ → ℕ → Predictor
history_update p pc target =
    let p' =
      push_bits 3 (u32 ((pc >>> 2) ^^^ (pc >>> 6))) (u32 ((target >>> 2) ^^^ (target >>> 6))) p in
    record p' { phist = p'.phist &&& low_mask phistwidth }

-- `TrackOtherInst`
unfoldable pub track_other_inst : Predictor → ℕ → ℕ → Predictor
track_other_inst p pc branch_target = history_update p pc branch_target
