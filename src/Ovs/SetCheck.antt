-- ===== src/Ovs/SetCheck.antt =====
-- `list_table` and `set_check` of `OVSCli` (openstack_hypervisor/bridge_datapath.py): a query, what
-- it says of the settings, and the command that applies them.
use mathlib.Core.Bool.{true≢false}
use snap_openstack_hyperviso.Base.{
  ◌≡◌, refl, sym, ap, ◌∙◌, Bool, true, false, not, Option, none, some, List, [], ◌∷◌, if◌then◌else◌,
  Result, ok, All, >>=-eq-ok, err-ne-ok, subst, ==_of_eq, ok-injective, text_eq, arith,
}
use snap_openstack_hyperviso.Base.Dict.{Dict, lookup}
use snap_openstack_hyperviso.Base.Text.{Text}
use snap_openstack_hyperviso.Base.Effects.{Exec, pure, lift, catch, ◌>>=◌, bind-eq-ok}
use snap_openstack_hyperviso.Ovs.{Outcome, Session}
use snap_openstack_hyperviso.Ovs.Queries.{query, or_on_command_error}
use snap_openstack_hyperviso.Ovs.Commands.{set}
use snap_openstack_hyperviso.Ovs.Json.{
  Data, raw, uuid, set_of, string, other, array, Entries, map_of,
}
use snap_openstack_hyperviso.Ovs.Tables.{
  absent_or_fails, differs_from, Table, list_args, read_output, read_rows, column_of, any_differs,
  differs, entry_of, str_of,
}

module _ {W : Type 0} (run : List Text → W → Outcome × W) (loads : Text → Result Table)
    (uuid_of : Text → Result Text) where
  unfoldable pub list_table : Text → Text → List Text → Exec (Session W) (Dict Text Data)
  unfolding query list_args read_rows
  list_table table row columns =
      catch (query run (list_args table row columns) >>= λ o. pure (some o))
        (or_on_command_error none)
      >>= λ output. lift (read_output uuid_of loads output)

  abbrev pub apply_settings : Text → Text → Text → Dict Text Text → Bool → Exec (Session W) Bool
  apply_settings table row column settings config_changed =
      if config_changed then (set run table row column settings >>= λ _. pure true) else pure false

  unfoldable pub set_check :
      (Data → Text) → Text → Text → Text → Dict Text Text → Exec (Session W) Bool
  unfolding list_table any_differs lookup set
  set_check printed table row column settings = list_table table row (column ∷ []) >>= λ parsed.
      lift (any_differs printed (column_of column parsed) settings false) >>= λ changed.
      apply_settings table row column settings changed

-- The column is a dict that has the key, with a value that prints like the new one.
abbrev pub Matches : (Data → Text) → Data → Text × Text → Type 0
Matches printed current (key, new_val) =
    (es : Entries) × (d : Data) × (current ≡ map_of es)
    × (entry_of key es ≡ some d)
    × (str_of printed d ≡ new_val)

module _ (printed : Data → Text) (current : Data) where
  absent_or_fails-ne : (present : Bool) → absent_or_fails present ≡ ok false → ⊥
  absent_or_fails-ne true h = cc
  absent_or_fails-ne false h = cc

  found-Matches :
      (es : Entries) (key new_val : Text) (found : Option Data)
      → entry_of key es ≡ found
      → differs_from printed new_val found ≡ false
      → Matches printed (map_of es) (key, new_val)
  found-Matches es key new_val none e h = absurd cc
  found-Matches es key new_val (some d) e h = (es, d, refl, e, ground arith)

  differs-Matches :
      (c : Data) (key new_val : Text)
      → differs printed c key new_val ≡ ok false
      → Matches printed c (key, new_val)
  unfolding differs
  differs-Matches (map_of es) key new_val h =
      found-Matches es key new_val (entry_of key es) refl (ok-injective h)
  differs-Matches (set_of is) key new_val h = absurd (absent_or_fails-ne _ h)
  differs-Matches (raw (array es)) key new_val h = absurd (absent_or_fails-ne _ h)
  differs-Matches (raw (string t)) key new_val h = absurd (absent_or_fails-ne _ h)
  differs-Matches (raw (other t)) key new_val h = absurd (err-ne-ok h)
  differs-Matches (uuid t) key new_val h = absurd (err-ne-ok h)

  Matches-differs :
      (key new_val : Text)
      → Matches printed current (key, new_val)
      → differs printed current key new_val ≡ ok false
  unfolding differs
  Matches-differs key new_val (es, d, e, f, g) = rw (e, f) (ap (λ b. ok (not b)) (==_of_eq _ _ g))

  both_false :
      (d changed : Bool) → (if d then true else changed) ≡ false → (d ≡ false) × (changed ≡ false)
  both_false true changed h = ground arith
  both_false false changed h = (refl, h)

  any_differs-Matches :
      (settings : Dict Text Text) (changed : Bool)
      → any_differs printed current settings changed ≡ ok false
      → (changed ≡ false) × All (Matches printed current) settings
  unfolding any_differs
  any_differs-Matches [] changed h = (ok-injective h, tt)
  any_differs-Matches ((key, new_val) ∷ settings) changed h =
      let (d, e, rest) = >>=-eq-ok (differs printed current key new_val) _ h in
      let (f, hs) = any_differs-Matches settings (if d then true else changed) rest in
      let (df, cf) = both_false d changed f in
      (cf, (differs-Matches current key new_val (e ∙ ap ok df), hs))

  Matches-any_differs :
      (settings : Dict Text Text) (changed : Bool)
      → All (Matches printed current) settings
      → any_differs printed current settings changed ≡ ok changed
  unfolding any_differs
  Matches-any_differs [] changed h = refl
  Matches-any_differs ((key, new_val) ∷ settings) changed (h, hs) =
      rw (Matches-differs key new_val h) (Matches-any_differs settings changed hs)

module _ {W : Type 0} (run : List Text → W → Outcome × W) (loads : Text → Result Table)
    (uuid_of : Text → Result Text) (printed : Data → Text) (table row column : Text)
    (settings : Dict Text Text) where
  -- The answer is whether some setting was not there yet.
  abbrev pub Answers : Bool → Data → Session W → Session W → Type 0
  Answers changed current before after =
      if changed
      then ((All (Matches printed current) settings → ⊥)
          × (set run table row column settings before ≡ (ok tt, after)))
      else (All (Matches printed current) settings × (after ≡ before))

  applied-Answers :
      (current : Data) (changed b : Bool) (s s' : Session W)
      → any_differs printed current settings false ≡ ok changed
      → apply_settings run loads uuid_of table row column settings changed s ≡ (ok b, s')
      → (changed ≡ b) × Answers changed current s s'
  applied-Answers current true b s s' h a =
      let (u, s1, e, f) = bind-eq-ok (set run table row column settings) (λ _. pure true) s a in
      (
        ok-injective (ap (λ p. p.0) f),
        (
          (λ m. absurd (
              true≢false
                (ok-injective (sym h ∙ Matches-any_differs printed current settings false m)))),
          subst (λ x. set run table row column settings s ≡ (ok tt, x)) (ap (λ p. p.1) f) e,
        ),
      )
  applied-Answers current false b s s' h a = (
    ok-injective (ap (λ p. p.0) a),
    ((any_differs-Matches printed current settings false h).1, sym (ap (λ p. p.1) a)),
  )

  -- `set_check` that returns read the column, and returns false only if the column is a dict with
  -- every setting, each printing as it should be: then nothing was run after the query. It returns
  -- true only if some setting was missing or different, and `set` was run with all of them.
  pub set_check-Answers :
      (s s' : Session W) (b : Bool)
      → set_check run loads uuid_of printed table row column settings s ≡ (ok b, s')
      → (parsed : Dict Text Data) × (s'' : Session W) × (list_table run loads uuid_of table row
            (column ∷ [])
            s
          ≡ (ok parsed, s''))
        × Answers b (column_of column parsed) s'' s'
  unfolding set_check
  set_check-Answers s s' b h =
      let (parsed, s1, e, f) =
        bind-eq-ok (list_table run loads uuid_of table row (column ∷ [])) _ s h in
      let (changed, s2, g, a) =
        bind-eq-ok (lift (any_differs printed (column_of column parsed) settings false)) _ s1 f in
      let (eq, answers) =
        applied-Answers (column_of column parsed) changed b s1 s' (ap (λ p. p.0) g) (
          ap (apply_settings run loads uuid_of table row column settings changed) (ap (λ p. p.1) g)
          ∙ a) in
      (parsed, s1, e, subst (λ c. Answers c (column_of column parsed) s1 s') eq answers)
