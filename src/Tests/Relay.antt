-- ===== src/Tests/Relay.antt =====
-- Sessions with the relay that serve two requests, that the relay refuses, and in which the socket fails.
use quick_stock_bot.Prelude.{◌≡◌, refl, true, false, List, [], ◌∷◌, ◌++◌, none, some, arith, All}
use quick_stock_bot.Prelude.Action.{◌>>=◌, gets, lift, modify, pure, raise}
use quick_stock_bot.Prelude.Dict.{lookup}
use quick_stock_bot.Num.Fixed.{Fixed, fixed_float}
use quick_stock_bot.Control.Values.{to_float}
use quick_stock_bot.Control.Database.{set_setting}
use quick_stock_bot.Control.Update.{
  handle_update_settings, accepted, without, truthy_at, serialized,
}
use quick_stock_bot.Control.Dispatch.{dispatch}
use quick_stock_bot.Control.Relay.{
  challenge, request, Arrival, Attempt, refused, opened, internal, RelaySetup, Relay, register,
  run_session, run,
}
use quick_stock_bot.Control.Relay.Served.{IsServed, run_session-IsServed}
use quick_stock_bot.Control.Relay.Paced.{waits, outcomes, IsWait, run_waits}
use quick_stock_bot.Control.Relay.Safe.{IsQuiet, run-stays_paper}
use quick_stock_bot.Tests.Control.{tools, live, with_patch, auto, unconfirmed}

abbrev setup : RelaySetup Fixed
setup = record {
  tools = tools;
  bot_id = "bot";
  license_key = "key";
  connection_password = "password";
  hmac = λ nonce password. "proof";
  not_finite_code = internal;
}

abbrev client : Relay Fixed
client = record {
  db = live;
  log_filter = none;
  connected = false;
  backoff = 1;
  sent = [];
  slept = [];
}

abbrev requests : List (Arrival Fixed)
requests =
    record { message = request "1" "trigger_scan" (with_patch unconfirmed); writable = true }
    ∷ record { message = request "2" "update_settings" (with_patch auto); writable = false }
    ∷ []

abbrev attempts : List (Attempt Fixed)
attempts =
    refused
    ∷ opened (record { message = challenge "nonce"; writable = true } ∷ requests)
    ∷ refused
    ∷ []

run_session-IsServed_example :
    let (outcome, r) =
      run_session setup
        (record { message = challenge "nonce"; writable = true } ∷ requests)
        client in
    IsServed setup requests (record client { sent = register "bot" "key" "proof" ∷ [] }) r outcome
run_session-IsServed_example = run_session-IsServed setup "nonce" requests client

run_waits_example :
    ((run setup attempts client).slept ≡ [] ++ waits 1 (outcomes setup attempts client))
    × All IsWait (waits 1 (outcomes setup attempts client))
run_waits_example = run_waits setup attempts client (ground arith, ground arith)

attempts-IsQuiet : All (IsQuiet setup) attempts
unfolding truthy_at
attempts-IsQuiet = (tt, ((tt, (((refl, tt), refl), (((refl, tt), refl), tt))), (tt, tt)))

stays_live : lookup "paper_trading" (run setup attempts client).db.settings ≡ some "false"
unfolding run dispatch handle_update_settings ◌>>=◌ gets lift accepted without to_float serialized
    modify pure raise set_setting
stays_live = refl

run-stays_paper_example : lookup "paper_trading" live.settings ≡ some "false"
run-stays_paper_example = run-stays_paper setup attempts client attempts-IsQuiet stays_live

waits_double : (run setup (refused ∷ refused ∷ refused ∷ []) client).slept ≡ 1 ∷ 2 ∷ 4 ∷ []
unfolding run
waits_double = refl
