-- ===== src/Installer/Writer/Sections.antt =====
-- installer/wizard: the settings that the validation takes can be written.
use quick_stock_bot.Prelude.{true, String, List, [], Option, none, some, ok, ◌≡◌, ◌≢◌, refl}
use quick_stock_bot.Prelude.Int.{ℤ, pos}
use quick_stock_bot.Prelude.Dict.{lookup}
use quick_stock_bot.Num.{Float, lit}
use quick_stock_bot.Control.Values.{
  Json, null, flag, integer, number, text, texts, Conversions, to_int, to_float,
}
use quick_stock_bot.Installer.Validator.{Entered, get, present, validate_scanner_settings}
use quick_stock_bot.Installer.Validator.Accepted.{
  IsFloat, IsInt, validate_scanner_settings-IsScannable,
}
use quick_stock_bot.Installer.Writer.{
  ScannerSection, get_or, float_of, int_of, bool_of, scanner_section,
}

-- the entry of the key is not `null`
abbrev pub IsFilled : {F : Type 0} → String → Entered F → Type 0
IsFilled key s = lookup key s ≢ some null

module _ {F : Type 0} ⦃num : Float F⦄ (conv : Conversions F) where
  float_given :
      (lo hi : Option F) (o : Option (Json F)) (default : F)
      → o ≢ some null
      → IsFloat conv lo hi (present o)
      → (x : F) × (to_float conv (elim o [ none ↦ number default | some v ↦ v ]) ≡ ok x)
  unfolding present to_float
  float_given lo hi none default filled h = (default, refl)
  float_given lo hi (some null) default filled h = absurd (filled refl)
  float_given lo hi (some (flag b)) default filled h = let (x, e, low, high) = h in (x, e)
  float_given lo hi (some (integer n)) default filled h = let (x, e, low, high) = h in (x, e)
  float_given lo hi (some (number y)) default filled h = let (x, e, low, high) = h in (x, e)
  float_given lo hi (some (text s)) default filled h = let (x, e, low, high) = h in (x, e)
  float_given lo hi (some (texts items)) default filled h = let (x, e, low, high) = h in (x, e)

  int_given :
      (lo : ℤ) (hi : Option ℤ) (o : Option (Json F)) (default : ℤ)
      → o ≢ some null
      → IsInt conv lo hi (present o)
      → (n : ℤ) × (to_int conv (elim o [ none ↦ integer default | some v ↦ v ]) ≡ ok n)
  unfolding present to_int
  int_given lo hi none default filled h = (default, refl)
  int_given lo hi (some null) default filled h = absurd (filled refl)
  int_given lo hi (some (flag b)) default filled h = let (n, e, within) = h in (n, e)
  int_given lo hi (some (integer m)) default filled h = let (n, e, within) = h in (n, e)
  int_given lo hi (some (number y)) default filled h = let (n, e, within) = h in (n, e)
  int_given lo hi (some (text s)) default filled h = let (n, e, within) = h in (n, e)
  int_given lo hi (some (texts items)) default filled h = let (n, e, within) = h in (n, e)

  -- no number of the scanner settings is `null`
  pub record IsComplete (s : Entered F) : Type 0 where
    pub lead : IsFilled "pre_open_lead_hours" s
    pub duration : IsFilled "scan_duration_hours" s
    pub volume : IsFilled "relative_volume_min" s
    pub gap : IsFilled "gap_up_min_pct" s
    pub shares : IsFilled "max_float_shares" s
    pub active : IsFilled "active_tickers_n" s

  -- Scanner settings that raise no problem, and of which none that is entered is `null`, can be written:
  -- no conversion raises.
  pub scanner_section_written :
      (characters : String → List String) (s : Entered F)
      → validate_scanner_settings conv s ≡ ok []
      → IsComplete s
      → (section : ScannerSection F) × (scanner_section conv characters s ≡ ok section)
  unfolding scanner_section get get_or float_of int_of
  scanner_section_written characters s valid filled =
      let fine = validate_scanner_settings-IsScannable conv s valid in
      let (lead, e₁) =
        float_given (some (lit 0 0)) (some (lit 8 0)) (lookup "pre_open_lead_hours" s) (lit 1 0)
          filled.lead fine.lead in
      let (duration, e₂) =
        float_given (some (lit 5 1)) (some (lit 24 0)) (lookup "scan_duration_hours" s) (lit 3 0)
          filled.duration fine.duration in
      let (volume, e₃) =
        float_given (some (lit 1 0)) none (lookup "relative_volume_min" s) (lit 2 0) filled.volume
          fine.volume in
      let (gap, e₄) =
        float_given (some (lit 0 0)) none (lookup "gap_up_min_pct" s) (lit 5 0) filled.gap
          fine.gap in
      let (shares, e₅) =
        int_given (pos 100_000) none (lookup "max_float_shares" s) (pos 20_000_000) filled.shares
          fine.shares in
      let (active, e₆) =
        int_given (pos 1) (some (pos 50)) (lookup "active_tickers_n" s) (pos 3) filled.active
          fine.active in
      (
        record {
          pre_open_lead_hours = lead;
          scan_duration_hours = duration;
          relative_volume_min = volume;
          gap_up_min_pct = gap;
          max_float_shares = shares;
          include_unknown_float = bool_of conv characters "include_unknown_float" true s;
          active_tickers_n = active;
        },
        rw (e₁) (rw (e₂) (rw (e₃) (rw (e₄) (rw (e₅) (rw (e₆) refl))))),
      )
