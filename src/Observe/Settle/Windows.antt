-- ===== src/Observe/Settle/Windows.antt =====
-- When a settle window is open: armed by a write, over at its deadline, and put back by a refused
-- write.
use localthings.Base.{
  ◌∙◌, ℕ, ◌+◌, ◌≤◌, String, Bool, true, false, ◌≡◌, ◌≢◌, refl, Option, none, some, ltb, leb, ◌==◌,
  eq_iff, if◌then◌else◌, arith,
}
use localthings.Base.Dict
use localthings.Base.Dict.{get-put, get-remove}
use localthings.Observe.State.{ObserveManager}
use localthings.Observe.Settle.{
  mark_write_pending, settle_deadline, restore_write_pending, is_settling, is_armed, put_back,
}

abbrev pub is_open : ℕ → Option ℕ → Bool
is_open now none = false
is_open now (some until) = ltb now until

-- a deadline that still lies ahead
abbrev live : ℕ → Option ℕ → Option ℕ
live now none = none
live now (some until) = if leb until now then none else some until

-- Whether an href is settling is whether its deadline lies ahead.
pub is_settling_open :
    {C : Type 0} (m : ObserveManager C) (now : ℕ) (href : String)
    → (is_settling now href m).0 ≡ is_open now (settle_deadline m href)
unfolding is_settling settle_deadline
is_settling_open m now href = ground arith

module _ {C : Type 0} (m : ObserveManager C) where
  -- A read of the window changes no answer that a later read gives.
  pub is_settling_again :
      (now t : ℕ) (href j : String)
      → now ≤ t
      → (is_settling t j (is_settling now href m).1).0 ≡ (is_settling t j m).0
  unfolding is_settling
  is_settling_again now t href j h = ground (arith, get-remove m.settle_until href j, eq_iff href j)

  -- A write opens the window of its href until its deadline, and touches no other window.
  is_settling-mark :
      (now settle t : ℕ) (href j : String)
      → (is_settling t j (mark_write_pending now href settle m).0).0
        ≡ (if href == j then ltb t (now + settle) else (is_settling t j m).0)
  unfolding is_settling mark_write_pending
  is_settling-mark now settle t href j =
      ground (arith, get-put m.settle_until href j (now + settle))

  -- the window of `href` armed at `now` and undone at `undone`
  abbrev pub restored : ℕ → String → ℕ → ℕ → ObserveManager C
  restored now href settle undone =
      restore_write_pending undone href (settle_deadline m href)
        (mark_write_pending now href settle m).1 (mark_write_pending now href settle m).0

  deadline-put_back :
      (undone : ℕ) (href j : String) (previous : Option ℕ)
      → settle_deadline (put_back undone href previous m) j
        ≡ (if href == j then live undone previous else settle_deadline m j)
  unfolding put_back settle_deadline
  deadline-put_back undone href j none = get-remove m.settle_until href j
  deadline-put_back undone href j (some p) =
      ground (arith, get-remove m.settle_until href j, get-put m.settle_until href j p)

  -- Undoing a refused write changes nothing where the window of its href has another deadline
  -- than the one that the write armed.
  restore_newer :
      (undone armed newer : ℕ) (href : String) (previous : Option ℕ)
      → settle_deadline m href ≡ some newer
      → newer ≢ armed
      → restore_write_pending undone href previous armed m ≡ m
  unfolding restore_write_pending settle_deadline
  restore_newer undone armed newer href previous h n = ground arith

module _ {C : Type 0} (m : ObserveManager C) where
  armed_kept :
      (now settle : ℕ) (href j : String)
      → (href == j) ≡ false
      → settle_deadline (mark_write_pending now href settle m).0 j ≡ settle_deadline m j
  unfolding mark_write_pending settle_deadline
  armed_kept now settle href j h = ground (arith, get-put m.settle_until href j (now + settle))

  armed_self :
      (now settle : ℕ) (href : String)
      → is_armed
          (Dict.get (mark_write_pending now href settle m).0.settle_until href)
          (now + settle)
        ≡ true
  unfolding mark_write_pending is_armed
  armed_self now settle href =
      ground (arith, eq_iff href href, get-put m.settle_until href href (now + settle))

  armed_eq :
      (now settle : ℕ) (href : String) → (mark_write_pending now href settle m).1 ≡ now + settle
  unfolding mark_write_pending
  armed_eq now settle href = refl

  deadline-restored :
      (now settle undone : ℕ) (href j : String)
      → settle_deadline (restored m now href settle undone) j
        ≡ (if href == j then live undone (settle_deadline m href) else settle_deadline m j)
  unfolding restore_write_pending
  deadline-restored now settle undone href j =
      let armed = (mark_write_pending now href settle m).0 in
      ground (
        arith,
        armed_self now settle href,
        armed_eq now settle href,
        armed_kept now settle href j,
        deadline-put_back armed undone href j (settle_deadline m href),
      )

  -- After a write is refused and undone at `undone`, every href settles, at any time from then
  -- on, as if it had not been armed.
  pub is_settling-restore :
      (now settle undone t : ℕ) (href j : String)
      → undone ≤ t
      → (is_settling t j (restored m now href settle undone)).0 ≡ (is_settling t j m).0
  is_settling-restore now settle undone t href j h = ground (
    arith,
    deadline-restored now settle undone href j,
    eq_iff href j,
    is_settling_open (restored m now href settle undone) t j,
    is_settling_open m t j,
  )

  -- Undoing the window that was armed last gives every href, from then on, the answer that it had
  -- before the write, if no other window has changed meanwhile.
  pub is_settling-undo :
      (m' : ObserveManager C) (armed undone t : ℕ) (href j : String)
      → ((i : String)
          → settle_deadline m' i ≡ (if href == i then some armed else settle_deadline m i))
      → undone ≤ t
      → (is_settling t j (restore_write_pending undone href (settle_deadline m href) armed m')).0
        ≡ (is_settling t j m).0
  unfolding restore_write_pending is_armed settle_deadline
  is_settling-undo m' armed undone t href j guarded h =
      let at_href : Dict.get m'.settle_until href ≡ some armed =
        guarded href ∙ rw ((eq_iff href href).1 refl) refl in
      ground (
        arith,
        at_href,
        guarded j,
        eq_iff href j,
        deadline-put_back m' undone href j (settle_deadline m href),
        is_settling_open (restore_write_pending undone href (settle_deadline m href) armed m') t j,
        is_settling_open m t j,
      )
