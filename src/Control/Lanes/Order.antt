-- ===== src/Control/Lanes/Order.antt =====
-- The order in which the entries leave the lanes.
use mathlib.Core.List.{append_assoc, append-nil}
use mxrc.Common.{
  ℕ, ◌≤◌, ◌<◌, ◌≡◌, refl, sym, ap, ◌∙◌, List, [], ◌∷◌, ◌++◌, arith, All, All-append, All-imp, leb,
  if◌then◌else◌,
}
use mxrc.Control.Priority.{Priority, rank}
use mxrc.Control.Lanes.{Lanes, empty, push_back, to_list}

module _ {ℓ} {A : Type ℓ} where
  -- The specification of a push: behind every entry whose key is not larger, before the others.
  abbrev pub insert_by : (A → ℕ) → A → List A → List A
  insert_by key a [] = a ∷ []
  insert_by key a (x ∷ xs) = if leb (key x) (key a) then x ∷ insert_by key a xs else a ∷ x ∷ xs

  pub insert_by_behind :
      (key : A → ℕ) (a : A) (xs ys : List A)
      → All (λ x. key x ≤ key a) xs
      → insert_by key a (xs ++ ys) ≡ xs ++ insert_by key a ys
  insert_by_behind key a [] ys h = refl
  insert_by_behind key a (x ∷ xs) ys h = ground (arith, insert_by_behind key a xs ys h.1)

  pub insert_by_before :
      (key : A → ℕ) (a : A) (ys : List A)
      → All (λ x. key a < key x) ys
      → insert_by key a ys ≡ a ∷ ys
  insert_by_before key a [] h = refl
  insert_by_before key a (y ∷ ys) h = ground arith

  -- Every entry stands in the queue of its own priority.
  pub record IsHomed (key : A → ℕ) (q : Lanes A) : Type ℓ where
    pub emergency_stop : All (λ x. key x ≡ 0) q.emergency_stop
    pub safety_issue : All (λ x. key x ≡ 1) q.safety_issue
    pub urgent_task : All (λ x. key x ≡ 2) q.urgent_task
    pub normal_task : All (λ x. key x ≡ 3) q.normal_task
    pub maintenance : All (λ x. key x ≡ 4) q.maintenance

  pub empty-IsHomed : (key : A → ℕ) → IsHomed key empty
  unfolding empty
  empty-IsHomed key = record {
    emergency_stop = tt;
    safety_issue = tt;
    urgent_task = tt;
    normal_task = tt;
    maintenance = tt;
  }

  module _ (key : A → ℕ) (a : A) where
    behind :
        (n : ℕ) (xs : List A) → n ≤ key a → All (λ x. key x ≡ n) xs → All (λ x. key x ≤ key a) xs
    behind n xs h = All-imp (λ x e. omega arith) xs

    before :
        (n : ℕ) (xs : List A) → key a < n → All (λ x. key x ≡ n) xs → All (λ x. key a < key x) xs
    before n xs h = All-imp (λ x e. omega arith) xs

    past :
        (n : ℕ) (xs ys zs : List A)
        → n ≤ key a
        → All (λ x. key x ≡ n) xs
        → insert_by key a ys ≡ zs
        → insert_by key a (xs ++ ys) ≡ xs ++ zs
    past n xs ys zs h all e = insert_by_behind key a xs ys (behind n xs h all) ∙ ap (◌++◌ xs) e

    slot :
        (n : ℕ) (xs ys : List A)
        → n ≤ key a
        → All (λ x. key x ≡ n) xs
        → All (λ x. key a < key x) ys
        → insert_by key a (xs ++ ys) ≡ (xs ++ a ∷ []) ++ ys
    slot n xs ys h all late =
        past n xs ys (a ∷ ys) h all (insert_by_before key a ys late)
        ∙ sym (append_assoc xs (a ∷ []) ys)

    last_slot :
        (n : ℕ) (xs : List A)
        → n ≤ key a
        → All (λ x. key x ≡ n) xs
        → insert_by key a xs ≡ xs ++ a ∷ []
    last_slot n xs h all =
        ap (insert_by key a) (sym (append-nil xs)) ∙ past n xs [] (a ∷ []) h all refl

    -- A push is the insertion by priority, behind the entries of its own priority.
    pub to_list-push_back :
        (p : Priority) (q : Lanes A)
        → IsHomed key q
        → key a ≡ rank p
        → to_list (push_back p a q) ≡ insert_by key a (to_list q)
    unfolding to_list push_back
    to_list-push_back Priority.emergency_stop q h e = sym (
        slot 0 _ _ (omega arith) h.emergency_stop (
          All-append _ q.safety_issue _ (before 1 _ (omega arith) h.safety_issue) (
            All-append _ q.urgent_task _ (before 2 _ (omega arith) h.urgent_task) (
              All-append _ q.normal_task _ (before 3 _ (omega arith) h.normal_task)
                (before 4 _ (omega arith) h.maintenance)))))
    to_list-push_back Priority.safety_issue q h e = sym (
        past 0 _ _ _ (omega arith) h.emergency_stop (
          slot 1 _ _ (omega arith) h.safety_issue (
            All-append _ q.urgent_task _ (before 2 _ (omega arith) h.urgent_task) (
              All-append _ q.normal_task _ (before 3 _ (omega arith) h.normal_task)
                (before 4 _ (omega arith) h.maintenance)))))
    to_list-push_back Priority.urgent_task q h e = sym (
        past 0 _ _ _ (omega arith) h.emergency_stop (
          past 1 _ _ _ (omega arith) h.safety_issue (
            slot 2 _ _ (omega arith) h.urgent_task (
              All-append _ q.normal_task _ (before 3 _ (omega arith) h.normal_task)
                (before 4 _ (omega arith) h.maintenance)))))
    to_list-push_back Priority.normal_task q h e = sym (
        past 0 _ _ _ (omega arith) h.emergency_stop (
          past 1 _ _ _ (omega arith) h.safety_issue (
            past 2 _ _ _ (omega arith) h.urgent_task
              (slot 3 _ _ (omega arith) h.normal_task (before 4 _ (omega arith) h.maintenance)))))
    to_list-push_back Priority.maintenance q h e = sym (
        past 0 _ _ _ (omega arith) h.emergency_stop (
          past 1 _ _ _ (omega arith) h.safety_issue (
            past 2 _ _ _ (omega arith) h.urgent_task (
              past 3 _ _ _ (omega arith) h.normal_task
                (last_slot 4 _ (omega arith) h.maintenance)))))

    pub push_back-IsHomed :
        (p : Priority) (q : Lanes A)
        → IsHomed key q
        → key a ≡ rank p
        → IsHomed key (push_back p a q)
    unfolding push_back
    push_back-IsHomed Priority.emergency_stop q h e = record {
      emergency_stop = All-append _ q.emergency_stop _ h.emergency_stop (e, tt);
      safety_issue = h.safety_issue;
      urgent_task = h.urgent_task;
      normal_task = h.normal_task;
      maintenance = h.maintenance;
    }
    push_back-IsHomed Priority.safety_issue q h e = record {
      emergency_stop = h.emergency_stop;
      safety_issue = All-append _ q.safety_issue _ h.safety_issue (e, tt);
      urgent_task = h.urgent_task;
      normal_task = h.normal_task;
      maintenance = h.maintenance;
    }
    push_back-IsHomed Priority.urgent_task q h e = record {
      emergency_stop = h.emergency_stop;
      safety_issue = h.safety_issue;
      urgent_task = All-append _ q.urgent_task _ h.urgent_task (e, tt);
      normal_task = h.normal_task;
      maintenance = h.maintenance;
    }
    push_back-IsHomed Priority.normal_task q h e = record {
      emergency_stop = h.emergency_stop;
      safety_issue = h.safety_issue;
      urgent_task = h.urgent_task;
      normal_task = All-append _ q.normal_task _ h.normal_task (e, tt);
      maintenance = h.maintenance;
    }
    push_back-IsHomed Priority.maintenance q h e = record {
      emergency_stop = h.emergency_stop;
      safety_issue = h.safety_issue;
      urgent_task = h.urgent_task;
      normal_task = h.normal_task;
      maintenance = All-append _ q.maintenance _ h.maintenance (e, tt);
    }
