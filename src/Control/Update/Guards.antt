-- ===== src/Control/Update/Guards.antt =====
-- bot/src/bot/control/handlers.py: what `update_settings` lets through, and what it leaves alone.
use quick_stock_bot.Prelude.{
  Bool, true, false, not, ◌&&◌, String, [], ◌∷◌, Option, none, some, Result, ok, err, ◌≡◌, refl,
  sym, ap, ◌∙◌, ◌⊎◌, inl, inr, arith, eq_iff, Bool-cases,
}
use quick_stock_bot.Prelude.Dict.{lookup}
use quick_stock_bot.Prelude.Action.{lift, gets, ◌>>=◌}
use quick_stock_bot.Num.{Float}
use quick_stock_bot.Control.Values.{Json, Conversions, truthy, to_float}
use quick_stock_bot.Control.Database.{Database, get_all_settings_raw}
use quick_stock_bot.Control.Settings.{Raw}
use quick_stock_bot.Control.Update.{
  Patch, without, truthy_at, goes_live, with_daily, check_risk, new_daily, accepted, serialized,
  write_all, get_settings, update_nonempty, handle_update_settings,
}
use quick_stock_bot.Control.Update.Entries.{
  IsDict, Listed, without-IsDict, Listed-without, lookup-Listed, Listed-of-without,
}
use quick_stock_bot.Control.Update.Writes.{Comes, write_all-Comes, write_all-nil}

module _ {F : Type 0} ⦃num : Float F⦄ (conv : Conversions F) where
  -- what the checks let through: the patch without the confirmation, and perhaps without the risk
  check_risk-cases :
      (daily : F) (override : Bool) (rest : Patch F) (risk : Option (Json F)) {patch' : Patch F}
      → check_risk conv daily override rest risk ≡ ok patch'
      → (patch' ≡ rest) ⊎ (patch' ≡ without "risk_per_trade_pct" rest)
  unfolding check_risk
  check_risk-cases daily override rest none e = inl (ground (arith, e))
  check_risk-cases daily true rest (some risk) e = inl (ground (arith, e))
  check_risk-cases daily false rest (some risk) e = inr (ground (arith, e))

  with_daily-cases :
      (raw : Raw) (rest : Patch F) (daily : Result F) {patch' : Patch F}
      → with_daily conv raw rest daily ≡ ok patch'
      → (patch' ≡ rest) ⊎ (patch' ≡ without "risk_per_trade_pct" rest)
  unfolding with_daily
  with_daily-cases raw rest (err x) e = absurd (ground (arith, e))
  with_daily-cases raw rest (ok daily) e =
      check_risk-cases daily _ rest (lookup "risk_per_trade_pct" rest) e

  pub accepted-cases :
      (raw : Raw) (patch : Patch F) {patch' : Patch F}
      → accepted conv raw patch ≡ ok patch'
      → let rest = without "live_mode_confirmed" patch in
        ((patch' ≡ rest) ⊎ (patch' ≡ without "risk_per_trade_pct" rest))
        × ((goes_live rest && not (truthy_at "live_mode_confirmed" patch)) ≡ false)
  unfolding accepted
  accepted-cases raw patch {patch'} e =
      let rest = without "live_mode_confirmed" patch in
      elim (Bool-cases (goes_live rest && not (truthy_at "live_mode_confirmed" patch))) [
        | inl refused ↦ absurd (ground (arith, rw refused at e))
        | inr allowed ↦ (
          with_daily-cases raw rest (new_daily conv rest raw) {patch' = patch'} (rw allowed at e),
          allowed,
        )
      ]

  -- every entry that is written stood in the patch, and is not the confirmation
  accepted-Listed :
      (raw : Raw) (patch patch' : Patch F) (j : String) (v : Json F)
      → accepted conv raw patch ≡ ok patch'
      → Listed j v patch'
      → Listed j v (without "live_mode_confirmed" patch)
  accepted-Listed raw patch patch' j v e l = elim (accepted-cases raw patch e).0 [
    | inl same ↦ rw same at l
    | inr less ↦ Listed-of-without j "risk_per_trade_pct" v _ (rw less at l)
  ]

  -- the state after an update
  pub settled : Result (Patch F) → Database F → Database F
  settled (err e) db = db
  settled (ok patch) db = (write_all conv patch db).1

  update_nonempty-settled :
      (patch : Patch F) (db : Database F)
      → (update_nonempty conv patch db).1
        ≡ settled (accepted conv (get_all_settings_raw db) patch) db
  unfolding update_nonempty ◌>>=◌ gets lift get_settings settled
  update_nonempty-settled patch db = ground arith

  pub accepted-nil : (raw : Raw) → accepted conv raw [] ≡ ok []
  unfolding accepted without goes_live truthy_at with_daily new_daily check_risk to_float
  accepted-nil raw = refl

  handle_update_settings-settled :
      (patch : Patch F) (db : Database F)
      → (handle_update_settings conv patch db).1
        ≡ settled (accepted conv (get_all_settings_raw db) patch) db
  unfolding handle_update_settings settled get_settings
  handle_update_settings-settled [] db = sym (
      ap (λ (r : Result (Patch F)). settled r db) (accepted-nil (get_all_settings_raw db))
      ∙ ap (λ (p : Result (Unit {0}) × Database F). p.1) (write_all-nil conv db))
  handle_update_settings-settled ((k, v) ∷ patch) db = update_nonempty-settled ((k, v) ∷ patch) db

  settled-Comes :
      (j : String) (patch : Patch F) (db : Database F) (r : Result (Patch F))
      → accepted conv (get_all_settings_raw db) patch ≡ r
      → Comes conv j
          (without "live_mode_confirmed" patch)
          (lookup j db.settings)
          (lookup j (settled r db).settings)
  unfolding settled
  settled-Comes j patch db (err x) e = inl refl
  settled-Comes j patch db (ok patch') e = elim (write_all-Comes conv j patch' db) [
    | inl same ↦ inl same
    | inr (v, t, l, s, n) ↦
        inr (v, t, accepted-Listed (get_all_settings_raw db) patch patch' j v e l, s, n)
  ]

  -- A setting after an update, also one that raised, is the one before, or the text of a value that
  -- the patch has for it.
  handle_update_settings-Comes :
      (j : String) (patch : Patch F) (db : Database F)
      → Comes conv j
          (without "live_mode_confirmed" patch)
          (lookup j db.settings)
          (lookup j (handle_update_settings conv patch db).1.settings)
  handle_update_settings-Comes j patch db =
      rw (handle_update_settings-settled patch db) (settled-Comes j patch db _ refl)

  -- An update, also one that raised, never changes the key of the confirmation or a read-only key.
  pub handle_update_settings-never :
      (patch : Patch F) (db : Database F)
      → let after = (handle_update_settings conv patch db).1 in
        (lookup "live_mode_confirmed" after.settings ≡ lookup "live_mode_confirmed" db.settings)
        × (lookup "goal_post_trade_count" after.settings
            ≡ lookup "goal_post_trade_count" db.settings)
  handle_update_settings-never patch db = (
    elim (handle_update_settings-Comes "live_mode_confirmed" patch db) [
      | inl same ↦ same
      | inr (v, t, l, s, n) ↦ absurd (
          ground (
            arith,
            Listed-without "live_mode_confirmed" "live_mode_confirmed" v patch l,
            eq_iff "live_mode_confirmed" "live_mode_confirmed",
          ))
    ],
    elim (handle_update_settings-Comes "goal_post_trade_count" patch db) [
      | inl same ↦ same
      | inr (v, t, l, s, n) ↦ absurd (not-read_only v t s)
    ],
  )
    where
      not-read_only :
          (v : Json F) (t : String) → serialized conv "goal_post_trade_count" v ≡ ok (some t) → ⊥
      not-read_only v t s = unfold serialized in absurd (ground (arith, s))

  paper_text :
      (v : Json F) (t : String)
      → serialized conv "paper_trading" v ≡ ok (some t)
      → truthy v ≡ true
      → t ≡ "true"
  unfolding serialized
  paper_text v t s h = ground (arith, s, h)

  goes_live-lookup :
      (rest : Patch F) (v : Json F)
      → lookup "paper_trading" rest ≡ some v
      → goes_live rest ≡ false
      → truthy v ≡ true
  unfolding goes_live
  goes_live-lookup rest v e h = ground (arith, e, h)

  settled-stays_paper :
      (patch : Patch F) (db : Database F) (r : Result (Patch F))
      → accepted conv (get_all_settings_raw db) patch ≡ r
      → IsDict patch
      → truthy_at "live_mode_confirmed" patch ≡ false
      → lookup "paper_trading" (settled r db).settings ≡ some "false"
      → lookup "paper_trading" db.settings ≡ some "false"
  unfolding settled
  settled-stays_paper patch db (err x) e d unconfirmed after = after
  settled-stays_paper patch db (ok patch') e d unconfirmed after =
      let rest = without "live_mode_confirmed" patch in
      let paper : goes_live rest ≡ false =
        ground (arith, (accepted-cases (get_all_settings_raw db) patch e).1, unconfirmed) in
      elim (settled-Comes "paper_trading" patch db (ok patch') e) [
        | inl same ↦ sym same ∙ after
        | inr (v, t, l, s, n) ↦
            let found = lookup-Listed "paper_trading" v rest (without-IsDict _ patch d) l in
            let is_true : t ≡ "true" = paper_text v t s (goes_live-lookup rest v found paper) in
            absurd (ground (arith, sym n ∙ after, is_true, eq_iff "true" "false"))
      ]

  -- If the patch does not confirm it, no update turns paper trading off: where it is stored as "false"
  -- afterwards, it was before. A patch has no key twice.
  pub handle_update_settings-stays_paper :
      (patch : Patch F) (db : Database F)
      → IsDict patch
      → truthy_at "live_mode_confirmed" patch ≡ false
      → lookup "paper_trading" (handle_update_settings conv patch db).1.settings ≡ some "false"
      → lookup "paper_trading" db.settings ≡ some "false"
  handle_update_settings-stays_paper patch db d unconfirmed after =
      settled-stays_paper patch db _ refl d unconfirmed
        (rw (handle_update_settings-settled patch db) at after)
