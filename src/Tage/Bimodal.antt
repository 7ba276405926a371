-- ===== src/Tage/Bimodal.antt =====
-- `getbim` and `baseupdate` (cbp2016_tage_sc_l.h): the bimodal table, in which four entries share the
-- low bit of their counter.
use ternary_geo_bp.Base.{
  zero, suc, [], ◌∷◌, ◌<◌, refl, ◌∙◌, ap, arith, length, get_or-set_self, length-set, min, ℕ, ◌+◌,
  ◌-◌, ◌/◌, ◌%◌, ◌≡◌, Bool, false, not, ◌||◌, List, ltb, ◌==◌, if◌then◌else◌, get_or, set, ◌<<<◌,
  ◌>>>◌,
}
use ternary_geo_bp.Tage.{BaseEntry, Lookup, no_base, hystshift}

-- `getbim`: the prediction, and the lookup with the confidence that it sets.
unfoldable pub getbim : List BaseEntry → Lookup → Bool × Lookup
getbim btable s =
    let bim =
      ((get_or btable s.bi no_base).pred <<< 1)
      + (get_or btable (s.bi >>> hystshift) no_base).hyst in
    let high_conf = (bim == 0) || (bim == 3) in
    (
      ltb 0 (get_or btable s.bi no_base).pred,
      record s {
        bim = bim;
        high_conf = high_conf;
        low_conf = not high_conf;
        alt_conf = high_conf;
        med_conf = false;
      },
    )

-- The counter that `baseupdate` writes.
unfoldable pub next_bim : ℕ → Bool → ℕ
next_bim inter taken =
    if taken
    then (if ltb inter 3 then inter + 1 else inter)
    else (if ltb 0 inter then inter - 1 else inter)

-- btable[i].pred = …
abbrev pub put_pred : List BaseEntry → ℕ → ℕ → List BaseEntry
put_pred btable i pred = set btable i (record (get_or btable i no_base) { pred = pred })

-- btable[i].hyst = …
abbrev pub put_hyst : List BaseEntry → ℕ → ℕ → List BaseEntry
put_hyst btable i hyst = set btable i (record (get_or btable i no_base) { hyst = hyst })

-- `baseupdate`
unfoldable pub baseupdate : List BaseEntry → Lookup → Bool → List BaseEntry
baseupdate btable s taken =
    let inter = next_bim s.bim taken in
    put_hyst (put_pred btable s.bi (inter >>> 1)) (s.bi >>> hystshift) (inter % 2)

put_hyst-pred :
    (bt : List BaseEntry) (i j hyst : ℕ)
    → (get_or (put_hyst bt i hyst) j no_base).pred ≡ (get_or bt j no_base).pred
put_hyst-pred [] i j hyst = refl
put_hyst-pred (b ∷ bt) zero zero hyst = refl
put_hyst-pred (b ∷ bt) zero (suc j) hyst = refl
put_hyst-pred (b ∷ bt) (suc i) zero hyst = refl
put_hyst-pred (b ∷ bt) (suc i) (suc j) hyst = put_hyst-pred bt i j hyst

-- What `baseupdate` writes is what `getbim` reads the next time: the two-bit counter of the entry,
-- moved by one towards the outcome, in the range from 0 to 3.
pub baseupdate-getbim :
    (bt : List BaseEntry) (s : Lookup) (taken : Bool)
    → s.bi < length bt
    → s.bim < 4
    → ((getbim (baseupdate bt s taken) s).1.bim ≡ (if taken then min (s.bim + 1) 3 else s.bim - 1))
      × ((getbim (baseupdate bt s taken) s).0
          ≡ ltb 1 (if taken then min (s.bim + 1) 3 else s.bim - 1))
unfolding getbim baseupdate next_bim
baseupdate-getbim bt s taken inside small = (ground (arith, pred, hyst), ground (arith, pred))
  where
    inter : ℕ
    inter = next_bim s.bim taken

    pred : (get_or (baseupdate bt s taken) s.bi no_base).pred ≡ inter / 2
    pred =
        put_hyst-pred (put_pred bt s.bi (inter >>> 1)) (s.bi >>> hystshift) s.bi (inter % 2)
        ∙ ap (λ (b : BaseEntry). b.pred) (get_or-set_self bt s.bi _ no_base inside)
        ∙ omega arith

    hyst : (get_or (baseupdate bt s taken) (s.bi >>> hystshift) no_base).hyst ≡ inter % 2
    hyst =
        ap (λ (b : BaseEntry). b.hyst)
          (get_or-set_self (put_pred bt s.bi (inter >>> 1)) (s.bi >>> hystshift) _ no_base (
            omega
              (arith, length-set bt s.bi (record (get_or bt s.bi no_base) { pred = inter >>> 1 }))))
