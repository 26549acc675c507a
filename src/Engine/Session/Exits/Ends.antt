-- ===== src/Engine/Session/Exits/Ends.antt =====
-- bot/src/bot/engine/session.py, `_process_exits`: with a broker that answers it returns.
use quick_stock_bot.Prelude.{
  false, String, List, [], ◌∷◌, Option, none, some, ◌≡◌, ◌≢◌, refl, arith,
}
use quick_stock_bot.Prelude.Dict.{Dict, Each-insert, Each-erase}
use quick_stock_bot.Prelude.Int.{ℤ}
use quick_stock_bot.Prelude.Succeeds.{
  Succeeds, Succeeds-pure, Succeeds-gets, Succeeds-lift, Succeeds-modify, Succeeds-bind,
  Succeeds-read,
}
use quick_stock_bot.Num.{Float, ◌⊗◌}
use quick_stock_bot.Models.{Bar}
use quick_stock_bot.Ta.Macd.Answers.{IsPeriods}
use quick_stock_bot.Engine.Exits.{ExitSignal, update_high_water_mark}
use quick_stock_bot.Engine.Session.State.{Session, Setup, TradeRecord, put_trade}
use quick_stock_bot.Engine.Session.Exits.Choice.{classify_macd-Returns, choose_signal-Returns}
use quick_stock_bot.Engine.Session.Exits.{
  mark, act_on, retag, tags_of, exit_marked, exit_trade, exit_one, exit_loop, erase_all,
  process_exits,
}
use quick_stock_bot.Engine.Session.Exits.Flat.{
  IsResponsive, IsStable, Every, execute_exit-Succeeds, shares_of,
}

module _ {F W : Type 0} ⦃num : Float F⦄ (env : Setup F W) (responsive : IsResponsive env.client)
    {R : ℤ → Type 0} {P : Session F W → Type 0} (stable : IsStable R P)
    (finite : (n : ℤ)
      → R n
      → num.floor (num.of_int n ⊗ env.cfg.trail_off_fraction_per_candle) ≢ none)
    (periods : IsPeriods env.ta_cfg) where
  put_trade_keeps :
      (key : String) (trade : TradeRecord F)
      → R trade.position.remaining_shares
      → (s : Session F W) → P s
      → P (put_trade key trade s)
  unfolding put_trade
  put_trade_keeps key trade held s p = stable.on_trades s _ p (
      Each-insert (λ _ t. R t.position.remaining_shares) key trade s.open_trades held
        (stable.trades s p))

  mark_keeps :
      (trade : TradeRecord F) (price : F)
      → R trade.position.remaining_shares
      → R (mark trade price).position.remaining_shares
  unfolding mark update_high_water_mark
  mark_keeps trade price held = ground (arith, held)

  act_on-Succeeds :
      (key : String) (trade : TradeRecord F) (price : F) (signal : Option (ExitSignal F))
      → R trade.position.remaining_shares
      → Succeeds P P (act_on env key trade price signal)
  unfolding act_on
  act_on-Succeeds key trade price none held = Succeeds-pure false
  act_on-Succeeds key trade price (some signal) held =
      Succeeds-bind _ _ (execute_exit-Succeeds env responsive stable key trade signal price held)
        λ _. Succeeds-bind _ _ (Succeeds-gets _) λ now. Succeeds-pure _

  exit_marked-Succeeds :
      (key : String) (marked : TradeRecord F) (price : F) (bars : List Bar)
      → R marked.position.remaining_shares
      → Succeeds P P (exit_marked env key marked price bars)
  unfolding exit_marked retag
  exit_marked-Succeeds key marked price bars held =
      let tagged = retag marked (tags_of env bars) in
      Succeeds-bind _ _ (Succeeds-modify (put_trade key marked) (put_trade_keeps key marked held))
        λ _.
          Succeeds-bind _ _ (Succeeds-lift _ (classify_macd-Returns F bars env.ta_cfg periods))
            λ macd.
              Succeeds-bind _ _
                (Succeeds-lift _
                  (choose_signal-Returns env.cfg marked (finite _ held) price macd _ _))
                λ signal.
                  Succeeds-bind _ _
                    (Succeeds-modify (put_trade key tagged) (put_trade_keeps key tagged held))
                    λ _. act_on-Succeeds key tagged price signal held

  exit_one-Succeeds :
      (key : String) (trade : Option (TradeRecord F)) (bars : List Bar)
      → ((t : TradeRecord F) → trade ≡ some t → R t.position.remaining_shares)
      → Succeeds P P (exit_one env key trade bars)
  unfolding exit_one exit_trade
  exit_one-Succeeds key none bars held = Succeeds-pure false
  exit_one-Succeeds key (some trade) [] held = Succeeds-pure false
  exit_one-Succeeds key (some trade) (b ∷ bars) held =
      exit_marked-Succeeds key _ _ (b ∷ bars) (mark_keeps trade _ (held trade refl))

  exit_loop-Succeeds :
      (names : List String) (bars : Dict (List Bar)) → Succeeds P P (exit_loop env names bars)
  unfolding exit_loop
  exit_loop-Succeeds [] bars = Succeeds-pure []
  exit_loop-Succeeds (key ∷ rest) bars = Succeeds-read _ _ λ s p.
      Succeeds-bind _ _ (exit_one-Succeeds key _ _ (shares_of env responsive stable key s p))
        λ closed. Succeeds-bind _ _ (exit_loop-Succeeds rest bars) λ others. Succeeds-pure _

  erase_all_keeps :
      (closed : List String) (d : Dict (TradeRecord F))
      → Every R d
      → Every R (erase_all env closed d)
  erase_all_keeps [] d h = h
  erase_all_keeps (key ∷ closed) d h =
      erase_all_keeps closed _ (Each-erase (λ _ t. R t.position.remaining_shares) key d h)

  pub process_exits-Succeeds : (bars : Dict (List Bar)) → Succeeds P P (process_exits env bars)
  unfolding process_exits
  process_exits-Succeeds bars = Succeeds-bind _ _ (Succeeds-gets _) λ names.
      Succeeds-bind _ _ (exit_loop-Succeeds names bars) λ closed.
        Succeeds-modify (λ s. record s { open_trades = erase_all env closed s.open_trades })
          (λ s p. stable.on_trades s _ p (erase_all_keeps closed s.open_trades (stable.trades s p)))
