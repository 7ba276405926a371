-- ===== src/Tage/Record.antt =====
-- `HistoryUpdate` (cbp2016_tage_sc_l.h): every branch is recorded in the histories.
pub mod Kept
use ternary_geo_bp.Base.{
  ℕ, zero, suc, ◌+◌, ◌-◌, ◌*◌, ◌/◌, ◌%◌, ◌^◌, ◌≡◌, Bool, true, false, not, ◌&&◌, ◌||◌, List, [],
  ◌∷◌, map, ltb, ◌==◌, if◌then◌else◌, to_ℕ, get_or, set, u32, u64, half32, ◌<<<◌, ◌>>>◌, ◌&&&◌,
  ◌^^^◌, low_mask, xor,
}
use ternary_geo_bp.Base.Int.{ℤ}
use ternary_geo_bp.Tage.{
  Folded, Gehl, History, Lookup, Predictor, Tables, same, histbufferlength, phistwidth, imli_width,
}
use ternary_geo_bp.Tage.Counter.{ctrupdate}
use ternary_geo_bp.Tage.Fold.{update}
use ternary_geo_bp.Tage.Hash.{get_local_index, get_second_local_index, get_third_local_index}
use ternary_geo_bp.Tage.Loop.{loopupdate}

-- The arguments of `HistoryUpdate`. A brtype is odd for a conditional branch; its second bit marks an
-- indirect one.
pub record Branch : Type 0 where
  pub pc : ℕ
  pub brtype : ℕ
  pub pred_taken : Bool
  pub taken : Bool
  pub next_pc : ℕ

-- The part of the loop predictor, for a conditional branch: the history and the seed afterwards.
unfoldable pub record_loop : Lookup → Branch → ℕ → History → History × ℕ
record_loop s b seed h =
    let withloop =
      if s.lvalid && xor b.pred_taken s.predloop
      then ctrupdate h.withloop (same s.predloop b.pred_taken) 7
      else h.withloop in
    let (ltable, seed') = loopupdate s h.phist h.ptghist seed b.pred_taken false h.ltable in
    (record h { withloop = withloop; ltable = ltable }, seed')

-- IMLIcount after a conditional branch.
unfoldable pub next_imli : Branch → ℕ → ℕ
next_imli b n =
    if ltb b.next_pc b.pc
    then (if b.taken then (if ltb n (low_mask imli_width) then n + 1 else n) else 0)
    else n

-- table[i] = (table[i] << 1) + taken
abbrev pub shift_in : List ℕ → ℕ → Bool → List ℕ
shift_in table i taken = set table i (u64 (u64 (get_or table i 0 <<< 1) + to_ℕ taken))

-- IMHIST, for a conditional branch.
unfoldable pub record_imhist : Branch → History → History
record_imhist b h = record h { imhist = shift_in h.imhist h.imli_count b.taken }

-- The global branch history and the local histories, for a conditional branch.
unfoldable pub record_locals : Branch → History → History
record_locals b h =
    let second = get_second_local_index b.pc in
    record h {
      ghist_word = u64 (u64 (h.ghist_word <<< 1) + to_ℕ (b.taken && ltb b.next_pc b.pc));
      l_shist = shift_in h.l_shist (get_local_index b.pc) b.taken;
      s_slhist =
          set h.s_slhist second
            (u64 (u64 (get_or h.s_slhist second 0 <<< 1) + to_ℕ b.taken) ^^^ (b.pc &&& 15));
      t_slhist = shift_in h.t_slhist (get_third_local_index b.pc) b.taken;
    }

-- T and PATH, the words that are shifted into the global and the path history.
unfoldable pub target_word : Branch → ℕ
target_word b =
    let t = u32 (b.pc ^^^ (b.pc >>> 2)) ^^^ to_ℕ b.taken in
    if (b.brtype == 3) && b.taken then u32 (t ^^^ (b.next_pc >>> 2)) else t

unfoldable pub path_word : Branch → ℕ
path_word b =
    let path = u32 (b.pc ^^^ (b.pc >>> 2) ^^^ (b.pc >>> 4)) in
    if (b.brtype == 3) && b.taken
    then u32 (path ^^^ (b.next_pc >>> 2) ^^^ (b.next_pc >>> 4))
    else path

-- The updates of the folded histories from 1 to NHIST.
abbrev pub update_folds : List ℕ → ℕ → List Folded → List Folded
update_folds ghist y [] = []
update_folds ghist y (unused ∷ folds) = unused ∷ map (λ f. update f ghist y) folds

-- One round of the loop: a bit of T and seven bits of PATH.
unfoldable pub push_bit : ℕ → ℕ → History → History
push_bit t path h =
    let y = u32 (h.ptghist + 2 ^ 32 - 1) in
    let ghist = set h.ghist (y &&& (histbufferlength - 1)) (t % 2) in
    record h {
      ptghist = y;
      ghist = ghist;
      phist = u64 (h.phist <<< 1) ^^^ (path &&& 127);
      ch_i = update_folds ghist y h.ch_i;
      ch_t0 = update_folds ghist y h.ch_t0;
      ch_t1 = update_folds ghist y h.ch_t1;
    }

unfoldable pub push_bits : ℕ → ℕ → ℕ → History → History
push_bits zero t path h = h
push_bits (suc n) t path h = push_bits n (half32 t) (half32 path) (push_bit t path h)

-- maxt
abbrev pub rounds : ℕ → ℕ
rounds brtype = if brtype % 2 == 1 then 2 else if (brtype / 2) % 2 == 1 then 3 else 2

-- The last part, for every branch.
unfoldable pub record_path : Branch → History → History
record_path b h =
    let h' = push_bits (rounds b.brtype) (target_word b) (path_word b) h in
    record h' { phist = h'.phist &&& low_mask phistwidth }

-- `HistoryUpdate`, on the running history and the seed.
unfoldable pub history_update : Lookup → Branch → ℕ → History → History × ℕ
history_update s b seed h =
    if b.brtype % 2 == 1
    then (let (h1, seed') = record_loop s b seed (record_imhist b h) in
        (
          record_path b (record_locals b (record h1 { imli_count = next_imli b h1.imli_count })),
          seed',
        ))
    else (record_path b h, seed)
