-- ===== src/Rescan/Config.antt =====
-- The settings of the loop of pkg/mcp/rescan: `EffectiveInterval`, `reloadConfig`, and the rounds of
-- `Run`. `digest` is `ContentHash`, `parse` is `config.Parse`, whose answer counts as far as it
-- concerns the loop.
use remindb.Prelude.{
  ℕ, ◌≡◌, refl, inl, inr, Bool, true, false, not, Option, none, some, [], arith, ◌==◌,
  if◌then◌else◌, Option-cases, Bytes, ◌=s◌,
}
use remindb.Rescan.{Loop}

pub record RescanConfig : Type 0 where
  pub enabled : Option Bool
  pub interval : Option ℕ
  pub settle : Option ℕ

-- Nanoseconds.
abbrev default_rescan_interval : ℕ
default_rescan_interval = 30000000000

abbrev default_settle_time : ℕ
default_settle_time = 500000000

-- A flag of 0 stands for one that is not positive.
unfoldable effective_interval : ℕ → RescanConfig → ℕ
effective_interval flag rc =
    let base = if flag == 0 then default_rescan_interval else flag in
    elim rc.interval [ none ↦ base | some interval ↦ interval ]

-- What `os.ReadFile` answers for the configuration.
pub data ConfigRead : Type 0 where
  missing : ConfigRead
  unreadable : ConfigRead
  content : Bytes → ConfigRead

abbrev or_else {ℓ} : {A : Type ℓ} → Option A → A → A
or_else none a = a
or_else (some b) a = b

-- The settings of a configuration.
unfoldable with_config : RescanConfig → Bytes → Loop → Loop
unfolding effective_interval
with_config rc digest loop = record loop {
  interval = effective_interval loop.bootstrap_interval rc;
  settle = or_else rc.settle default_settle_time;
  enabled = or_else rc.enabled true;
  config_hash = digest;
}

module _ (digest : Bytes → Bytes) (parse : Bytes → Option RescanConfig) where
  abbrev take_config : Bytes → Option RescanConfig → Loop → Loop × Bool
  take_config text none loop = (loop, false)
  take_config text (some rc) loop =
      let loop' = with_config rc (digest text) loop in
      (loop', not (loop'.interval == loop.interval))

  unfoldable load_text : Bytes → Loop → Loop × Bool
  unfolding with_config
  load_text text loop =
      if digest text =s loop.config_hash then (loop, false) else take_config text (parse text) loop

  -- `reloadConfig`: the loop, and whether its interval changed. A missing file is an empty one.
  unfoldable reload_config : ConfigRead → Loop → Loop × Bool
  unfolding load_text
  reload_config missing loop = load_text [] loop
  reload_config unreadable loop = (loop, false)
  reload_config (content text) loop = load_text text loop

  -- One round of `Run`, over the scan of the loop: a disabled loop does not scan.
  unfoldable run_round {ℓ} : {S : Type ℓ} → (Loop → S → Loop × S) → ConfigRead → Loop × S → Loop × S
  unfolding reload_config
  run_round scan read (loop, state) =
      let (loop', changed) = reload_config read loop in
      if loop'.enabled then scan loop' state else (loop', state)

  load_text-again :
      (text : Bytes) (loop : Loop)
      → load_text text (load_text text loop).0 ≡ ((load_text text loop).0, false)
  unfolding load_text
  load_text-again text loop = elim (Option-cases (parse text)) [
    | inl bad ↦ rw bad (ground arith)
    | inr (rc, good) ↦ rw good (ground arith)
  ]

  -- A configuration that is read again, after no other one, changes nothing, good or bad.
  reload_config-again :
      (read : ConfigRead) (loop : Loop)
      → reload_config read (reload_config read loop).0 ≡ ((reload_config read loop).0, false)
  unfolding reload_config
  reload_config-again missing loop = load_text-again [] loop
  reload_config-again unreadable loop = refl
  reload_config-again (content text) loop = load_text-again text loop
