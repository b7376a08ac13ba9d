-- ===== src/Lifecycle/Live.antt =====
-- The signals that are not aborted are those of the registered controllers.
use dataops_testgen.Base.{
  ℕ, suc, ◌<◌, ◌≡◌, refl, sym, ◌∙◌, ap, Bool, true, false, Option, none, some, List, [], ◌∷◌, ◌==◌,
  Bool-cases, Option-cases, inl, inr, arith, if◌then◌else◌, String, str_eq, str_eq_iff, str_eq_refl,
  ◌⊎◌,
}
use dataops_testgen.Lifecycle.{
  Registry, empty_registry, put, abort, make, enter_page, exit_with, exit_page, Call, enter, exit,
  call, run,
}
use mathlib.Core.Path.{fun_ext, subst}

abbrev pub IsLive : Registry → ℕ → Type 0
IsLive r n = (n < r.made) × (r.aborted n ≡ false)

-- The controllers of the registry are live, each live controller is registered, and under one key.
pub record IsSound (r : Registry) : Type 0 where
  pub live : (key : String) (n : ℕ) → r.controllers key ≡ some n → IsLive r n
  pub registered : (n : ℕ) → IsLive r n → (key : String) × (r.controllers key ≡ some n)
  pub one_key : (k l : String) (n : ℕ) → r.controllers k ≡ some n → r.controllers l ≡ some n → k ≡ l

put-same : (m : String → Option ℕ) (key : String) (v : Option ℕ) → put m key v key ≡ v
unfolding put
put-same m key v = rw (str_eq_refl key) refl

put-other :
    (m : String → Option ℕ) (key : String) (v : Option ℕ) (k : String)
    → str_eq k key ≡ false
    → put m key v k ≡ m k
unfolding put
put-other m key v k h = rw h refl

put-put :
    (m : String → Option ℕ) (key : String) (v w : Option ℕ) → put (put m key v) key w ≡ put m key w
unfolding put
put-put m key v w =
    fun_ext (λ k. elim (Bool-cases (str_eq k key)) [ inl e ↦ rw e refl | inr e ↦ rw e refl ])

pub same_key : (k l : String) → str_eq k l ≡ true → k ≡ l
same_key k l h = (str_eq_iff k l).0 h

-- The registry after the controller of a key is aborted and taken out.
drop : String → Registry → Registry
drop key r = record {
  controllers = put r.controllers key none;
  aborted = abort (r.controllers key) r.aborted;
  made = r.made;
}

abort-other :
    (o : Option ℕ) (flags : ℕ → Bool) (n : ℕ) → (o ≡ some n → ⊥) → abort o flags n ≡ flags n
unfolding abort
abort-other none flags n h = refl
abort-other (some m) flags n h = elim (Bool-cases (n == m)) [
  | inl e ↦ let same : m ≡ n = ground arith in absurd (h (ap some same))
  | inr e ↦ rw e refl
]

abort-same : (o : Option ℕ) (flags : ℕ → Bool) (n : ℕ) → o ≡ some n → abort o flags n ≡ true
unfolding abort
abort-same none flags n h = cc
abort-same (some m) flags n h = ground arith

abort-false : (o : Option ℕ) (flags : ℕ → Bool) (n : ℕ) → abort o flags n ≡ false → flags n ≡ false
unfolding abort
abort-false none flags n h = h
abort-false (some m) flags n h = ground arith

held :
    (m : String → Option ℕ) (key k : String) (n : ℕ)
    → put m key none k ≡ some n
    → (str_eq k key ≡ false) × (m k ≡ some n)
unfolding put
held m key k n h = elim (Bool-cases (str_eq k key)) [
  | inl e ↦ let gone : none ≡ some n = sym (ap (λ b. if b then none else m k) e) ∙ h in cc
  | inr e ↦ (e, sym (ap (λ b. if b then none else m k) e) ∙ h)
]

not_same : (k : String) → str_eq k k ≡ false → ⊥
not_same k h = let same : str_eq k k ≡ true = str_eq_refl k in cc

drop-IsSound : (key : String) (r : Registry) → IsSound r → IsSound (drop key r)
unfolding drop
drop-IsSound key r s = record {
  live = λ k n h.
      let old : (str_eq k key ≡ false) × (r.controllers k ≡ some n) =
        held r.controllers key k n h in
      let other : r.controllers key ≡ some n → ⊥ =
        λ q. not_same k (subst (λ l. str_eq k l ≡ false) (s.one_key key k n q old.1) old.0) in
      let before : IsLive r n = s.live k n old.1 in
      (before.0, abort-other (r.controllers key) r.aborted n other ∙ before.1);
  registered = λ n h.
      let key' : (k : String) × (r.controllers k ≡ some n) =
        s.registered n (h.0, abort-false (r.controllers key) r.aborted n h.1) in
      elim (Bool-cases (str_eq key'.0 key)) [
        | inl e ↦
            let same : r.controllers key ≡ some n =
              ap r.controllers (sym (same_key key'.0 key e)) ∙ key'.1 in
            let gone : abort (r.controllers key) r.aborted n ≡ true =
              abort-same (r.controllers key) r.aborted n same in
            let kept : abort (r.controllers key) r.aborted n ≡ false = h.1 in absurd cc
        | inr e ↦ (key'.0, put-other r.controllers key none key'.0 e ∙ key'.1)
      ];
  one_key = λ k l n h h'.
      s.one_key k l n (held r.controllers key k n h).1 (held r.controllers key l n h').1;
}

-- The registry after a new controller is made for a key.
add : String → Registry → Registry
add key r = record {
  controllers = put r.controllers key (some r.made);
  aborted = make r.made r.aborted;
  made = suc r.made;
}

pub make-other : (m : ℕ) (flags : ℕ → Bool) (n : ℕ) → n < m → make m flags n ≡ flags n
unfolding make
make-other m flags n h = ground arith

make-same : (m : ℕ) (flags : ℕ → Bool) → make m flags m ≡ false
unfolding make
make-same m flags = ground arith

-- What a key has after `add`: the new controller, or what it had.
given :
    (m : String → Option ℕ) (key k : String) (v n : ℕ)
    → put m key (some v) k ≡ some n
    → ((k ≡ key) × (v ≡ n)) ⊎ ((str_eq k key ≡ false) × (m k ≡ some n))
unfolding put
given m key k v n h = elim (Bool-cases (str_eq k key)) [
  | inl e ↦
      let new : some v ≡ some n = sym (ap (λ b. if b then some v else m k) e) ∙ h in
      inl (same_key k key e, cc)
  | inr e ↦ inr (e, sym (ap (λ b. if b then some v else m k) e) ∙ h)
]

one_key-given :
    (r : Registry) (key k l : String) (n : ℕ)
    → IsSound r
    → ((k ≡ key) × (r.made ≡ n)) ⊎ ((str_eq k key ≡ false) × (r.controllers k ≡ some n))
    → ((l ≡ key) × (r.made ≡ n)) ⊎ ((str_eq l key ≡ false) × (r.controllers l ≡ some n))
    → k ≡ l
one_key-given r key k l n s (inl a) (inl b) = a.0 ∙ sym b.0
one_key-given r key k l n s (inl a) (inr b) =
    let before : n < r.made = (s.live l n b.1).0 in absurd (omega arith)
one_key-given r key k l n s (inr a) (inl b) =
    let before : n < r.made = (s.live k n a.1).0 in absurd (omega arith)
one_key-given r key k l n s (inr a) (inr b) = s.one_key k l n a.1 b.1

add-IsSound :
    (key : String) (r : Registry) → r.controllers key ≡ none → IsSound r → IsSound (add key r)
unfolding add
add-IsSound key r free s = record {
  live = λ k n h. elim (given r.controllers key k r.made n h) [
    | inl new ↦ (omega arith, ap (make r.made r.aborted) (sym new.1) ∙ make-same r.made r.aborted)
    | inr old ↦
        let before : IsLive r n = s.live k n old.1 in
        (omega arith, make-other r.made r.aborted n before.0 ∙ before.1)
  ];
  registered = λ n h. elim (Bool-cases (n == r.made)) [
    | inl e ↦ (key, put-same r.controllers key (some r.made) ∙ ap some (ground arith))
    | inr e ↦
        let small : n < r.made = ground arith in
        let key' : (k : String) × (r.controllers k ≡ some n) =
          s.registered n (small, sym (make-other r.made r.aborted n small) ∙ h.1) in
        elim (Bool-cases (str_eq key'.0 key)) [
          | inl e' ↦
              let same : r.controllers key ≡ some n =
                ap r.controllers (sym (same_key key'.0 key e')) ∙ key'.1 in
              absurd cc
          | inr e' ↦ (key'.0, put-other r.controllers key (some r.made) key'.0 e' ∙ key'.1)
        ]
  ];
  one_key = λ k l n h h'.
      one_key-given r key k l n s (given r.controllers key k r.made n h)
        (given r.controllers key l r.made n h');
}

enter_page-drop : (key : String) (r : Registry) → add key (drop key r) ≡ enter_page key r
unfolding add drop enter_page
enter_page-drop key r =
    ap
      (λ m. record {
        controllers = m;
        aborted = make r.made (abort (r.controllers key) r.aborted);
        made = suc r.made;
      })
      (put-put r.controllers key none (some r.made))

enter_page-IsSound : (key : String) (r : Registry) → IsSound r → IsSound (enter_page key r)
enter_page-IsSound key r s = subst IsSound (enter_page-drop key r) (
    add-IsSound key (drop key r) (unfold drop in put-same r.controllers key none)
      (drop-IsSound key r s))

exit_page-found :
    (key : String) (r : Registry) (n : ℕ)
    → r.controllers key ≡ some n
    → exit_page key r ≡ drop key r
unfolding exit_page exit_with drop
exit_page-found key r n h = rw h refl

exit_page-missing : (key : String) (r : Registry) → r.controllers key ≡ none → exit_page key r ≡ r
unfolding exit_page exit_with
exit_page-missing key r h = rw h refl

exit_page-IsSound : (key : String) (r : Registry) → IsSound r → IsSound (exit_page key r)
exit_page-IsSound key r s = elim (Option-cases (r.controllers key)) [
  | inl h ↦ subst IsSound (sym (exit_page-missing key r h)) s
  | inr (n, h) ↦ subst IsSound (sym (exit_page-found key r n h)) (drop-IsSound key r s)
]

run-IsSound_from : (cs : List Call) (r : Registry) → IsSound r → IsSound (run cs r)
unfolding run call
run-IsSound_from [] r s = s
run-IsSound_from (enter key ∷ cs) r s =
    run-IsSound_from cs (enter_page key r) (enter_page-IsSound key r s)
run-IsSound_from (exit key ∷ cs) r s =
    run-IsSound_from cs (exit_page key r) (exit_page-IsSound key r s)

-- After any calls the signals that are not aborted are exactly those of the registered pages, and
-- no two pages share one.
pub run-IsSound : (cs : List Call) → IsSound (run cs empty_registry)
run-IsSound cs = run-IsSound_from cs empty_registry (record {
  live = λ key n h. absurd cc;
  registered = λ n h. let none_made : n < 0 = h.0 in absurd (omega arith);
  one_key = λ k l n h h'. absurd cc;
})
