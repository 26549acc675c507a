-- ===== src/Installer/Validator/Accepted.antt =====
-- installer/wizard/validator.py: what holds of settings in which no problem is found.
use quick_stock_bot.Prelude.{
  Bool, false, String, [], ◌∷◌, Option, none, some, Result, ok, err, ◌≡◌, refl, ◌∙◌, ap, arith,
  if◌then◌else◌,
}
use quick_stock_bot.Prelude.Int.{ℤ, pos, ◌≤ℤ◌}
use quick_stock_bot.Prelude.Dict.{insert}
use quick_stock_bot.Num.{Float, lit, ◌<?◌}
use quick_stock_bot.Control.Values.{Json, Conversions, to_int, to_float}
use quick_stock_bot.Installer.Validator.{
  Problem, not_a_number, not_an_integer, Entered, Problems, get, note, float_within, int_within,
  is_infinite, float_problem, int_problem, check_float, check_int, check_scanner_floats,
  validate_scanner_settings,
}

insert-nonempty :
    {F : Type 0} (key : String) (p : Problem F) (errors : Problems F) → insert key p errors ≡ [] → ⊥
insert-nonempty key p [] h = ground (arith, h)
insert-nonempty key p ((j, w) ∷ errors) h = ground (arith, h)

pub note-nil :
    {F : Type 0} (key : String) (p : Option (Problem F)) (errors : Problems F)
    → note key p errors ≡ []
    → (p ≡ none) × (errors ≡ [])
unfolding note
note-nil key none errors h = (refl, h)
note-nil key (some p) errors h = absurd (insert-nonempty key p errors h)

abbrev pub IsCount : ℤ → Option ℤ → ℤ → Type 0
IsCount lo none n = lo ≤ℤ n
IsCount lo (some hi) n = (lo ≤ℤ n) × (n ≤ℤ hi)

module _ {F : Type 0} ⦃num : Float F⦄ where
  abbrev pub IsFrom : Option F → F → Type 0
  IsFrom none x = Unit
  IsFrom (some lo) x = (x <? lo) ≡ false

  abbrev pub IsUpTo : Option F → F → Type 0
  IsUpTo none x = Unit
  IsUpTo (some hi) x = (hi <? x) ≡ false

  float_within-none :
      (lo hi : Option F) (x : F) → float_within lo hi x ≡ none → IsFrom lo x × IsUpTo hi x
  unfolding float_within
  float_within-none none none x h = (tt, tt)
  float_within-none (some lo) none x h = (ground (arith, h), tt)
  float_within-none none (some hi) x h = (tt, ground (arith, h))
  float_within-none (some lo) (some hi) x h = (ground (arith, h), ground (arith, h))

  int_within-none :
      (lo : ℤ) (hi : Option ℤ) (n : ℤ) → int_within {F = F} lo hi n ≡ none → IsCount lo hi n
  unfolding int_within
  int_within-none lo none n h = ground (arith, h)
  int_within-none lo (some hi) n h = (ground (arith, h), ground (arith, h))

module _ {F : Type 0} ⦃num : Float F⦄ (conv : Conversions F) where
  -- a value that is entered is a number within the bounds
  abbrev pub IsFloat : Option F → Option F → Option (Json F) → Type 0
  IsFloat lo hi none = Unit
  IsFloat lo hi (some v) = (x : F) × (to_float conv v ≡ ok x) × IsFrom lo x × IsUpTo hi x

  abbrev pub IsInt : ℤ → Option ℤ → Option (Json F) → Type 0
  IsInt lo hi none = Unit
  IsInt lo hi (some v) = (n : ℤ) × (to_int conv v ≡ ok n) × IsCount lo hi n

  read_float-within :
      (lo hi : Option F) (r : Result F)
      → elim r [ err e ↦ some not_a_number | ok x ↦ float_within lo hi x ] ≡ none
      → (x : F) × (r ≡ ok x) × IsFrom lo x × IsUpTo hi x
  read_float-within lo hi (err e) h = absurd (ground (arith, h))
  read_float-within lo hi (ok x) h =
      let (low, high) = float_within-none lo hi x h in (x, refl, low, high)

  float_problem-none :
      (lo hi : Option F) (o : Option (Json F)) → float_problem conv lo hi o ≡ none → IsFloat lo hi o
  unfolding float_problem
  float_problem-none lo hi none h = tt
  float_problem-none lo hi (some v) h = read_float-within lo hi (to_float conv v) h

  read_int-within :
      (lo : ℤ) (hi : Option ℤ) (infinite : Bool) (r : Result ℤ)
      → elim r [
        | err e ↦ if infinite then err e else ok (some not_an_integer)
        | ok n ↦ ok (int_within {F = F} lo hi n)
      ]
        ≡ ok none
      → (n : ℤ) × (r ≡ ok n) × IsCount lo hi n
  read_int-within lo hi infinite (err e) h = absurd (ground (arith, h))
  read_int-within lo hi infinite (ok n) h =
      (n, refl, int_within-none {F = F} lo hi n (ground (arith, h)))

  int_problem-none :
      (lo : ℤ) (hi : Option ℤ) (o : Option (Json F))
      → int_problem conv lo hi o ≡ ok none
      → IsInt lo hi o
  unfolding int_problem
  int_problem-none lo hi none h = tt
  int_problem-none lo hi (some v) h = read_int-within lo hi (is_infinite v) (to_int conv v) h

  pub check_float-nil :
      (settings : Entered F) (key : String) (lo hi : Option F) (errors : Problems F)
      → check_float conv settings key lo hi errors ≡ []
      → IsFloat lo hi (get key settings) × (errors ≡ [])
  unfolding check_float
  check_float-nil settings key lo hi errors h =
      let (fine, rest) = note-nil key _ errors h in
      (float_problem-none lo hi (get key settings) fine, rest)

  noted-nil :
      (key : String) (r : Result (Option (Problem F))) (errors : Problems F)
      → elim r [ err e ↦ err e | ok p ↦ ok (note key p errors) ] ≡ ok []
      → (r ≡ ok none) × (errors ≡ [])
  noted-nil key (err e) errors h = absurd (ground (arith, h))
  noted-nil key (ok p) errors h =
      let (fine, rest) = note-nil key p errors (ground (arith, h)) in (ap ok fine, rest)

  check_int-nil :
      (settings : Entered F) (key : String) (lo : ℤ) (hi : Option ℤ) (errors : Problems F)
      → check_int conv settings key lo hi errors ≡ ok []
      → IsInt lo hi (get key settings) × (errors ≡ [])
  unfolding check_int
  check_int-nil settings key lo hi errors h =
      let (fine, rest) = noted-nil key _ errors h in
      (int_problem-none lo hi (get key settings) fine, rest)

  pub record IsScannable (settings : Entered F) : Type 0 where
    pub lead : IsFloat (some (lit 0 0)) (some (lit 8 0)) (get "pre_open_lead_hours" settings)
    pub duration : IsFloat (some (lit 5 1)) (some (lit 24 0)) (get "scan_duration_hours" settings)
    pub volume : IsFloat (some (lit 1 0)) none (get "relative_volume_min" settings)
    pub gap : IsFloat (some (lit 0 0)) none (get "gap_up_min_pct" settings)
    pub shares : IsInt (pos 100_000) none (get "max_float_shares" settings)
    pub active : IsInt (pos 1) (some (pos 50)) (get "active_tickers_n" settings)

  checked-IsScannable :
      (settings : Entered F) (r : Result (Problems F))
      → check_int conv settings "max_float_shares"
          (pos 100_000)
          none
          (check_scanner_floats conv settings)
        ≡ r
      → elim r [
        | err e ↦ err e
        | ok errors ↦ check_int conv settings "active_tickers_n" (pos 1) (some (pos 50)) errors
      ]
        ≡ ok []
      → IsScannable settings
  unfolding check_scanner_floats
  checked-IsScannable settings (err e) s h = absurd (ground (arith, h))
  checked-IsScannable settings (ok errors) s h =
      let (active, e₁) =
        check_int-nil settings "active_tickers_n" (pos 1) (some (pos 50)) errors h in
      let (shares, e₂) =
        check_int-nil settings "max_float_shares" (pos 100_000) none _ (s ∙ ap ok e₁) in
      let (gap, e₃) = check_float-nil settings "gap_up_min_pct" (some (lit 0 0)) none _ e₂ in
      let (volume, e₄) =
        check_float-nil settings "relative_volume_min" (some (lit 1 0)) none _ e₃ in
      let (duration, e₅) =
        check_float-nil settings "scan_duration_hours" (some (lit 5 1)) (some (lit 24 0)) _ e₄ in
      let (lead, e₆) =
        check_float-nil settings "pre_open_lead_hours" (some (lit 0 0)) (some (lit 8 0)) [] e₅ in
      record {
        lead = lead;
        duration = duration;
        volume = volume;
        gap = gap;
        shares = shares;
        active = active;
      }

  -- If the scanner settings raise no problem, each one that is entered is a number, not below its lower
  -- bound and not above its upper bound.
  pub validate_scanner_settings-IsScannable :
      (settings : Entered F)
      → validate_scanner_settings conv settings ≡ ok []
      → IsScannable settings
  unfolding validate_scanner_settings
  validate_scanner_settings-IsScannable settings h = checked-IsScannable settings _ refl h
