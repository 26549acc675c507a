-- ===== src/Scanner/Scan.antt =====
-- bot/src/bot/scanner/scanner.py: `run_scan`.
use quick_stock_bot.Prelude.{String, List, Option, none, some, Result, ok, not, if◌then◌else◌}
use quick_stock_bot.Prelude.Int.{ℤ}
use quick_stock_bot.Prelude.Action.{Action, ◌>>=◌}
use quick_stock_bot.Num.{Float}
use quick_stock_bot.Scanner.State.{ScanWindow, ScanResult}
use quick_stock_bot.Scanner.Calendar.{Civil}
use quick_stock_bot.Scanner.Window.{get_scan_window, is_in_window}
use quick_stock_bot.Scanner.Fundamentals.{Scanning}
use quick_stock_bot.Scanner.Leaders.{assign_roles}
use quick_stock_bot.Scanner.Candidates.{ScanSetup, scan_candidates, call}
use quick_stock_bot.Scanner.Active.{build_active_set}

module _ {F W : Type 0} ⦃num : Float F⦄ (setup : ScanSetup F W) where
  open setup use {client, config}

  -- the pass inside the window
  scan_within :
      ScanWindow → List String → Option (List String) → ℤ → Scanning W → ScanResult F × Scanning W
  scan_within window symbols movers now s =
      let (found, s') = scan_candidates setup window symbols now s in
      let candidates = assign_roles config.leader_similarity_threshold found in
      (
        record {
          window = window;
          candidates = candidates;
          active_set = build_active_set candidates config movers;
          scanned_at = now;
        },
        s',
      )

  scan_if :
      ScanWindow
      → List String
      → Option (List String)
      → ℤ
      → Action (Scanning W) (Option (ScanResult F))
  unfolding scan_within
  scan_if window symbols movers now s =
      if not (is_in_window now window)
      then (ok none, s)
      else let (result, s') = scan_within window symbols movers now s in (ok (some result), s')

  unfoldable pub run_scan :
      (String → Result Civil)
      → Civil
      → List String
      → Option (List String)
      → ℤ
      → Action (Scanning W) (Option (ScanResult F))
  unfolding scan_if
  run_scan strptime utcnow symbols movers now = do
    window ← call (
        get_scan_window client strptime utcnow config.pre_open_lead_hours
          config.scan_duration_hours)
    scan_if window symbols movers now
