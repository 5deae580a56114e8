-- ===== src/Server/Configured.antt =====
-- A configuration that is set, the update of the policy included, and then read.
use native.Mathlib.Nat.{le_trans}
use k_elda_archive.Base.{
  ℕ, ◌≤◌, ◌≡◌, refl, sym, ap, subst, ◌∙◌, values, keep, some, Bool-cases, inl, inr, ok,
}
use k_elda_archive.Blueprint.{Blueprint}
use k_elda_archive.Db.{Database}
use k_elda_archive.Db.Access.{commit_row}
use k_elda_archive.Db.Invariant.{IsSound, IsSound-mono}
use k_elda_archive.Db.Queries.{
  get_blueprint, minion_self, get_etcd, single_blueprint, single_minion, single_etcd, etcd_leader,
}
use k_elda_archive.Db.Rows.{Minion}
use k_elda_archive.Db.Slots
use k_elda_archive.Engine.Effects.{Sound}
use k_elda_archive.Engine.Update.{Orders, update_policy}
use k_elda_archive.Engine.Whole.{IsSoundPolicy, update_policy-Succeeds, update_policy-follower}
use k_elda_archive.Foreman.Config.{MinionConfig}
use k_elda_archive.Server.Config.{
  Texts, set_minion, set_blueprint, set_members, save, set_rows, set_config,
}
use k_elda_archive.Server.Single.{save-one, commit-changed}
use k_elda_archive.Server.RoundTrip.{
  is_self, IsMinion, IsConfigured, HoldsConfig, self-changed, self-of_keep, mem-of_keep, get-of_set,
  set_minion-id, get_blueprint-values, get_etcd-values, minion_self-keep,
}

mono :
    {R : Type 0} (s : Slots.Slot R) (n : ℕ) (db : Database)
    → db.cur_id ≤ n
    → Sound s db
    → IsSound s.row n (s.read db)
mono s n db h v = IsSound-mono s.row db.cur_id n (s.read db) h v

policy-mono :
    (db db' : Database)
    → db.cur_id ≤ db'.cur_id
    → db'.images ≡ db.images
    → db'.containers ≡ db.containers
    → db'.load_balancers ≡ db.load_balancers
    → db'.connections ≡ db.connections
    → db'.placements ≡ db.placements
    → IsSoundPolicy db
    → IsSoundPolicy db'
policy-mono db db' h e₁ e₂ e₃ e₄ e₅ v = record {
  images =
      subst (IsSound Slots.images.row db'.cur_id) (sym e₁)
        (mono Slots.images db'.cur_id db h v.images);
  containers =
      subst (IsSound Slots.containers.row db'.cur_id) (sym e₂)
        (mono Slots.containers db'.cur_id db h v.containers);
  load_balancers =
      subst (IsSound Slots.load_balancers.row db'.cur_id) (sym e₃)
        (mono Slots.load_balancers db'.cur_id db h v.load_balancers);
  connections =
      subst (IsSound Slots.connections.row db'.cur_id) (sym e₄)
        (mono Slots.connections db'.cur_id db h v.connections);
  placements =
      subst (IsSound Slots.placements.row db'.cur_id) (sym e₅)
        (mono Slots.placements db'.cur_id db h v.placements);
}

-- The policy's update leaves the three rows alone.
updated-IsConfigured :
    (o : Orders) (texts : Texts) (msg : MinionConfig) (bp : Blueprint) (m : Minion) (db : Database)
    → IsSoundPolicy db
    → HoldsConfig texts msg bp m db
    → IsConfigured texts msg bp m (update_policy o db)
unfolding single_blueprint
updated-IsConfigured o texts msg bp m db v s = elim (Bool-cases (etcd_leader db)) [
  | inl h ↦
      let row = s.blueprint.0 in
      let a =
        update_policy-Succeeds o (set_blueprint bp row) db h
          (get_blueprint-values db ∙ ap single_blueprint s.blueprint.1) v in
      record {
        after = a.after;
        result = a.result;
        read = get-of_set texts msg bp m a.after (record {
          blueprint = (row, ap (λ t. values t.rows) a.blueprints ∙ s.blueprint.1);
          minion = ap (λ t. keep is_self (values t.rows)) a.minions ∙ s.minion;
          etcd = (s.etcd.0, ap (λ t. values t.rows) a.etcds ∙ s.etcd.1);
        });
      }
  | inr h ↦ record {
    after = db;
    result = update_policy-follower o db h;
    read = get-of_set texts msg bp m db s;
  }
]

set_rows-steps :
    (o : Orders) (texts : Texts) (msg : MinionConfig) (bp : Blueprint) (m : Minion)
    (db db₁ db₂ db₃ : Database)
    → save Slots.blueprints (set_blueprint bp) (get_blueprint db) db ≡ ok db₁
    → minion_self db₁ ≡ ok m
    → commit_row Slots.minions (set_minion msg m) db₁ ≡ ok db₂
    → save Slots.etcds (set_members texts msg) (get_etcd db₂) db₂ ≡ ok db₃
    → set_rows texts o bp msg db ≡ update_policy o db₃
unfolding set_rows
set_rows-steps o texts msg bp m db db₁ db₂ db₃ e₁ e₂ e₃ e₄ = rw (e₁, e₂, e₃, e₄) refl

set_rows-IsConfigured :
    (o : Orders) (texts : Texts) (msg : MinionConfig) (bp : Blueprint) (m : Minion) (db : Database)
    → IsMinion m db
    → IsConfigured texts msg bp m (set_rows texts o bp msg db)
unfolding single_blueprint single_minion single_etcd
set_rows-IsConfigured o texts msg bp m db v =
    let a =
      save-one Slots.blueprints (set_blueprint bp) (λ r. refl) single_blueprint
        "no blueprints found" refl (λ r. refl) db v.one_blueprint v.blueprints in
    let db₁ : Database = record db { blueprints = a.table; cur_id = a.last } in
    let b =
      commit-changed Slots.minions (set_minion msg) (set_minion-id msg) m db₁
        (mono Slots.minions a.last db a.grew v.minions)
        (mem-of_keep (values db.minions.rows) m v.one_self) in
    let db₂ : Database = record db₁ { minions = b.table; cur_id = b.last } in
    let c =
      save-one Slots.etcds (set_members texts msg) (λ r. refl) single_etcd "no etcd row" refl
        (λ r. refl) db₂ v.one_etcd (mono Slots.etcds b.last db (le_trans a.grew b.grew) v.etcds) in
    let db₃ : Database = record db₂ { etcds = c.table; cur_id = c.last } in
    let d =
      updated-IsConfigured o texts msg bp m db₃
        (policy-mono db db₃ (le_trans a.grew (le_trans b.grew c.grew)) refl refl refl refl refl
          v.policy)
        (record {
          blueprint = a.holds;
          minion =
              self-changed msg m (values db.minions.rows) (values b.table.rows) v.one_self
                (self-of_keep (values db.minions.rows) m v.one_self) b.holds;
          etcd = c.holds;
        }) in
    record {
      after = d.after;
      result =
          set_rows-steps o texts msg bp m db db₁ db₂ db₃
            (ap (λ r. save Slots.blueprints (set_blueprint bp) r db) (get_blueprint-values db)
              ∙ a.result)
            (minion_self-keep db₁ ∙ ap single_minion v.one_self) b.result
            (ap (λ r. save Slots.etcds (set_members texts msg) r db₂) (get_etcd-values db₂)
              ∙ c.result)
          ∙ d.result;
      read = d.read;
    }

-- If the blueprint of a configuration parses, and the minion's tables are sound with at most one
-- blueprint and one etcd row and one row for the minion itself, then SetMinionConfig, updatePolicy
-- included, neither fails nor panics, and GetMinionConfig then returns the configuration that was
-- set, with the minion's own role, the etcd members sorted, the keys joined and split at newlines,
-- the blueprint printed, and without the floating IP and the ID.
pub set_config-IsConfigured :
    (o : Orders) (texts : Texts) (msg : MinionConfig) (bp : Blueprint) (m : Minion) (db : Database)
    → texts.parse msg.blueprint ≡ some bp
    → IsMinion m db
    → IsConfigured texts msg bp m (set_config texts o msg db)
unfolding set_config
set_config-IsConfigured o texts msg bp m db e v = rw e (set_rows-IsConfigured o texts msg bp m db v)
