-- ===== src/Config/Contexts.antt =====
-- What holds wherever the parser is.
use mapper_framework_c.Prelude.{
  ◌≡◌, refl, Bool, true, ◌&&◌, ◌||◌, Bool-cases, inl, inr, some, List, [], ◌∷◌, arith, not,
}
use mapper_framework_c.Prelude.CString.{Str, snprintf}
use mapper_framework_c.Config.{
  Config, Token, stream_end, key_token, value_token, block_mapping_start, block_end, other_token,
  scalar, Context, store_value, enter, leave, Place, at_top, behind_key, behind_name, step, is_end,
  start, scan_tokens,
}

-- At most one section is open, and the MySQL section only inside the database section.
abbrev pub one_section : Context → Bool
one_section c =
    not (c.in_grpc_server && c.in_common)
    && not (c.in_grpc_server && c.in_database)
    && not (c.in_common && c.in_database)
    && (not c.in_mysql || c.in_database)

module _ (P : Context → Type 0) (entered : (c : Context) → P c → P (enter c))
    (left : (c : Context) → P c → P (leave c))
    (named : (c : Context) (v : Str) → P c → P (record c { key = snprintf 128 v }))
    (stored : (c : Context) (v : Str) → P c → P (record c { config = store_value c v })) where
  -- What the four changes of the variables keep, every step keeps.
  pub step_keeps : (p : Place) (c : Context) (t : Token) → P c → P (step p c t).1
  unfolding step
  step_keeps at_top c key_token h = h
  step_keeps at_top c block_end h = left c h
  step_keeps at_top c stream_end h = h
  step_keeps at_top c value_token h = h
  step_keeps at_top c block_mapping_start h = h
  step_keeps at_top c other_token h = h
  step_keeps at_top c (scalar v) h = h
  step_keeps behind_key c (scalar v) h = named c v h
  step_keeps behind_key c stream_end h = h
  step_keeps behind_key c key_token h = h
  step_keeps behind_key c value_token h = h
  step_keeps behind_key c block_mapping_start h = h
  step_keeps behind_key c block_end h = h
  step_keeps behind_key c other_token h = h
  step_keeps behind_name c value_token h = h
  step_keeps behind_name c block_mapping_start h = entered c h
  step_keeps behind_name c (scalar v) h = stored c v h
  step_keeps behind_name c stream_end h = h
  step_keeps behind_name c key_token h = h
  step_keeps behind_name c block_end h = h
  step_keeps behind_name c other_token h = h

  -- The configuration that is returned is that of a state in which it holds.
  pub scan_keeps :
      (p : Place) (c : Context) (ts : List Token) {cfg : Config}
      → P c
      → scan_tokens p c ts ≡ some cfg
      → (last : Context) × P last × (last.config ≡ cfg)
  unfolding scan_tokens
  scan_keeps p c [] h e = absurd (cc)
  scan_keeps p c (t ∷ ts) {cfg} h e = elim (Bool-cases (is_end p t)) [
    | inl y ↦ (c, h, cc (rw y at e))
    | inr n ↦ scan_keeps (step p c t).0 (step p c t).1 ts (step_keeps p c t h) (rw n at e)
  ]

-- The place and the variables after some tokens, from a place and variables.
abbrev pub run_tokens : Place → Context → List Token → Place × Context
run_tokens p c [] = (p, c)
run_tokens p c (t ∷ ts) = run_tokens (step p c t).0 (step p c t).1 ts

one_section-enter : (c : Context) → one_section c ≡ true → one_section (enter c) ≡ true
unfolding enter
one_section-enter c h = ground arith

one_section-leave : (c : Context) → one_section c ≡ true → one_section (leave c) ≡ true
unfolding leave
one_section-leave c h = ground arith

one_section-run_tokens :
    (p : Place) (c : Context) (ts : List Token)
    → one_section c ≡ true
    → one_section (run_tokens p c ts).1 ≡ true
one_section-run_tokens p c [] h = h
one_section-run_tokens p c (t ∷ ts) h = one_section-run_tokens (step p c t).0 (step p c t).1 ts (
    step_keeps (λ c. one_section c ≡ true) one_section-enter one_section-leave (λ c v h. h)
      (λ c v h. h) p c t h)

-- After any tokens at most one of the three sections is open, and the MySQL section only with the
-- database section.
pub run_tokens-one_section : (ts : List Token) → one_section (run_tokens at_top start ts).1 ≡ true
run_tokens-one_section ts = one_section-run_tokens at_top start ts refl
