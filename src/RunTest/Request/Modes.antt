-- ===== src/RunTest/Request/Modes.antt =====
-- strataqemu/run_test.py: which flow a request leads to.
use strata_qemu_testing.Base.{
  Bool, true, false, not, ◌&&◌, ◌||◌, Option, none, some, [], ◌∷◌, Result, ok, err, ◌≡◌, refl,
  arith, bind_elim, guard_elim, ok-injective, inl, inr, Bool-cases, if-cases, ◌∙◌, ap,
}
use mathlib.Core.Path.{subst}
use strata_qemu_testing.Base.Text.{Text, codes, text_eq, is_empty, strip}
use strata_qemu_testing.Guests.{
  supports_omarchy_bindings, supports_install_from_release, supports_update_from,
}
use strata_qemu_testing.Versions.{VersionError, is_version, parse_update_from_version}
use strata_qemu_testing.Versions.Normal.{parse_update_from_version_lem}
use strata_qemu_testing.RunTest.Request.{
  Request, update_fail_closed, install_fail_closed, archive_not_allowed, no_mode, Flow, install,
  update, bindings, session, given, is_text, check_exclusive, refuse_version, resolve_update,
  install_ok, resolve_archive, resolve_install_sh, choose_flow, decide, local_archive, source_of,
}

-- The request asks for no other flow than its bindings.
abbrev pub OnlyBindings : Request → Type 0
OnlyBindings r =
    (r.session_only ≡ false) × (given r.install_from ≡ false) × (given r.update_from ≡ false)

-- When a flow may run: what the request asks for, and what the guest supports.
abbrev pub IsAllowed : (Text → Bool) → Request → Flow → Type 0
IsAllowed is_file r (install source archive) =
    (r.session_only ≡ false)
    × (r.omarchy_bindings ≡ false)
    × (given r.update_from ≡ false)
    × (supports_install_from_release r.guest_id ≡ true)
    × (r.install_from ≡ some source)
IsAllowed is_file r (update version) =
    (r.session_only ≡ false)
    × (r.omarchy_bindings ≡ false)
    × (given r.install_from ≡ false)
    × (supports_update_from r.guest_id ≡ true)
    × ((value : Text) × (r.update_from ≡ some value)
        × (parse_update_from_version value ≡ ok version))
IsAllowed is_file r (bindings script) =
    (r.omarchy_bindings ≡ true) × (supports_omarchy_bindings r.guest_id ≡ true) × OnlyBindings r
IsAllowed is_file r session =
    (r.session_only ≡ true) × (r.omarchy_bindings ≡ false) × (given r.update_from ≡ false)

-- The checks for exclusive options.
pub record IsExclusive (r : Request) : Type 0 where
  pub only_bindings : r.omarchy_bindings ≡ true → OnlyBindings r
  pub bindings_known : r.omarchy_bindings ≡ true → supports_omarchy_bindings r.guest_id ≡ true
  pub only_update :
      given r.update_from ≡ true
      → (r.session_only ≡ false) × (given r.install_from ≡ false) × (r.omarchy_bindings ≡ false)

check_exclusive-IsExclusive :
    (r : Request) {u : Unit {0}} → check_exclusive r ≡ ok u → IsExclusive r
unfolding check_exclusive
check_exclusive-IsExclusive r h = record {
  only_bindings = λ b. (ground arith, ground arith, ground arith);
  bindings_known = λ b. ground arith;
  only_update = λ g. (ground arith, ground arith, ground arith);
}

parse_given :
    (value version : Text) → parse_update_from_version value ≡ ok version → is_empty value ≡ false
unfolding parse_update_from_version strip
parse_given [] version h = cc
parse_given (c ∷ value) version h = refl

-- A resolved version: what the command line gave, parsed, for a guest that supports it.
abbrev IsResolved : Request → Option Text → Type 0
IsResolved r none = r.update_from ≡ none
IsResolved r (some version) =
    (given r.update_from ≡ true)
    × (supports_update_from r.guest_id ≡ true)
    × ((value : Text) × (r.update_from ≡ some value)
        × (parse_update_from_version value ≡ ok version))

resolve_update-IsResolved :
    (r : Request) (o : Option Text) {resolved : Option Text}
    → r.update_from ≡ o
    → resolve_update r.guest_id o ≡ ok resolved
    → IsResolved r resolved
unfolding resolve_update
resolve_update-IsResolved r none {resolved} e h =
    subst (IsResolved r) (ok-injective none resolved h) e
resolve_update-IsResolved r (some value) {resolved} e h =
    bind_elim (refuse_version (parse_update_from_version value)) _ h λ version parsed h.
      guard_elim (supports_update_from r.guest_id) update_fail_closed _ h λ supported h.
        let accepted = refuse_version-eq-ok (parse_update_from_version value) parsed in
        subst (IsResolved r) (ok-injective (some version) resolved h) (
          ap given e ∙ ap not (parse_given value version accepted),
          supported,
          (value, e, accepted),
        )
  where
    refuse_version-eq-ok :
        (q : Result VersionError Text) {v : Text} → refuse_version q ≡ ok v → q ≡ ok v
    refuse_version-eq-ok (ok v) h = cc
    refuse_version-eq-ok (err e) h = cc

not_both : (r : Request) → r.session_only ≡ true → IsExclusive r → given r.update_from ≡ false
not_both r s x = elim (Bool-cases (given r.update_from)) [
  | inl asked ↦ absurd (let alone = (x.only_update asked).0 in cc)
  | inr not_asked ↦ not_asked
]

-- What `install_ok` means.
record IsInstall (r : Request) : Type 0 where
  no_session : r.session_only ≡ false
  no_bindings : r.omarchy_bindings ≡ false
  no_update : given r.update_from ≡ false
  supported : supports_install_from_release r.guest_id ≡ true
  known_source :
      (is_text r.install_from (codes "release") || is_text r.install_from local_archive) ≡ true

install_ok-IsInstall : (r : Request) → install_ok r ≡ true → IsInstall r
unfolding install_ok
install_ok-IsInstall r h = ground arith

source_given :
    (is_file : Text → Bool) (o : Option Text)
    → (is_text o (codes "release") || is_text o local_archive) ≡ true
    → o ≡ some (source_of is_file o)
unfolding text_eq
source_given is_file none h = cc
source_given is_file (some []) h = cc
source_given is_file (some (c ∷ s)) h = refl

module _ (is_file : Text → Bool) (r : Request) (archive script : Option Text) where
  install-IsAllowed :
      install_ok r ≡ true → IsAllowed is_file r (install (source_of is_file r.install_from) archive)
  install-IsAllowed i =
      let f = install_ok-IsInstall r i in
      (
        f.no_session,
        f.no_bindings,
        f.no_update,
        f.supported,
        source_given is_file r.install_from f.known_source,
      )

  choose_flow-update :
      (version : Text)
      → IsExclusive r
      → IsResolved r (some version)
      → IsAllowed is_file r (choose_flow is_file r (some version) archive script)
  unfolding choose_flow
  choose_flow-update version x s = elim (Bool-cases (install_ok r)) [
    | inl i ↦ absurd (cc (s.0, (install_ok-IsInstall r i).no_update))
    | inr i ↦
        let alone = x.only_update s.0 in
        rw
          (
            i,
            choose_flow,
            is_version-non_empty version (parse_update_from_version_lem s.2.0 version s.2.2).1,
          )
          (alone.0, alone.2, alone.1, s.1, s.2)
  ]
    where
      is_version-non_empty : (v : Text) → is_version v ≡ true → is_empty v ≡ false
      is_version-non_empty [] h = unfold is_version in cc (h)
      is_version-non_empty (c ∷ v) h = refl

  choose_flow-other :
      IsExclusive r
      → (r.session_only || (install_ok r || (r.omarchy_bindings || false))) ≡ true
      → IsAllowed is_file r (choose_flow is_file r none archive script)
  unfolding choose_flow
  choose_flow-other x m = if-cases (IsAllowed is_file r) (install_ok r) _ _ install-IsAllowed λ i.
      if-cases (IsAllowed is_file r) r.omarchy_bindings (bindings script) session
        (λ b. (b, x.bindings_known b, x.only_bindings b))
        λ b. (ground arith, b, not_both r (ground arith) x)

choose_flow-IsAllowed :
    (is_file : Text → Bool) (r : Request) (resolved archive script : Option Text)
    → IsExclusive r
    → IsResolved r resolved
    → (r.session_only || (install_ok r || (r.omarchy_bindings || given resolved))) ≡ true
    → IsAllowed is_file r (choose_flow is_file r resolved archive script)
choose_flow-IsAllowed is_file r (some version) archive script x s m =
    choose_flow-update is_file r archive script version x s
choose_flow-IsAllowed is_file r none archive script x s m =
    choose_flow-other is_file r archive script x m

-- The flow that a request leads to is one that it asks for and that its guest supports. An install has the
-- source of the request, and the request asks for none of the three other flows. An update has the version
-- that the given text parses to, and the same holds. The bindings exclude the three others too. A session
-- goes with neither bindings nor an update; an install source beside it is ignored.
pub decide-IsAllowed :
    (is_file : Text → Bool) (r : Request) (flow : Flow)
    → decide is_file r ≡ ok flow
    → IsAllowed is_file r flow
unfolding decide
decide-IsAllowed is_file r flow h = bind_elim (check_exclusive r) _ h λ u exclusive h.
    bind_elim (resolve_update r.guest_id r.update_from) _ h λ resolved read h.
      guard_elim (not (given r.install_from && (not r.session_only && not (install_ok r))))
        install_fail_closed _ h
        λ _ h.
          guard_elim (not (given r.archive_path && not (is_text r.install_from local_archive)))
            archive_not_allowed _ h
            λ _ h. bind_elim (resolve_archive is_file r) _ h λ archive _ h.
              bind_elim (resolve_install_sh is_file r) _ h λ script _ h.
                guard_elim
                  (r.session_only || (install_ok r || (r.omarchy_bindings || given resolved)))
                  no_mode _ h
                  λ mode h.
                    subst (IsAllowed is_file r)
                      (ok-injective (choose_flow is_file r resolved archive script) flow h)
                      (choose_flow-IsAllowed is_file r resolved archive script
                        (check_exclusive-IsExclusive r {u = u} exclusive)
                        (resolve_update-IsResolved r r.update_from {resolved = resolved} refl read)
                        mode)
