-- ===== src/Resume/Killed.antt =====
-- A coroutine that is killed, by dyco_coroutine_abort or by the check of its stack.
use mathlib.Core.Option.{none-ne-some}
use dyco_coroutine.Base.{
  ℕ, zero, suc, ◌≡◌, ◌≢◌, refl, ap, ◌∙◌, true, false, Option, none, some, List, [], ◌∷◌, ◌>>=◌, All,
  get_elem?, set, ==_refl, ne→==, ℤ, pos, minus_one,
}
use dyco_coroutine.HashTable.{Table, Entry, no_id, slot, dec_int, delete, drop_head}
use dyco_coroutine.Status.{killed, sleeping, incoropool, asymmetric, iomultiplexing}
use dyco_coroutine.Schedule.Tree.{SleepTree}
use dyco_coroutine.Schedule.{has_flag, cancel_sleep}
use dyco_coroutine.Schedule.Lifecycle.{unregister, close_epoll, free_coroutine}
use dyco_coroutine.Schedcall.{World, Outside, with_sched, with_cids, coro_abort}
use dyco_coroutine.Resume.{kill, kill_head, kill_value, settle, starts_with, drop_count}

get_elem?-set :
    {A : Type 0} (xs : List A) (i : ℕ) (a v : A)
    → get_elem? xs i ≡ some a
    → get_elem? (set xs i v) i ≡ some v
get_elem?-set [] i a v h = absurd (none-ne-some _ h)
get_elem?-set (x ∷ xs) zero a v h = refl
get_elem?-set (x ∷ xs) (suc i) a v h = get_elem?-set xs i a v h

-- The entries of one bucket have different ids.
unfoldable pub AreApart : List (Entry ℕ) → Type 0
AreApart [] = Unit
AreApart (e ∷ es) = All (λ x. x.id ≢ e.id) es × AreApart es

starts_with-apart :
    (id : ℕ) (es : List (Entry ℕ)) → All (λ x. x.id ≢ id) es → starts_with id es ≡ false
starts_with-apart id [] apart = refl
starts_with-apart id (e ∷ es) apart = ne→== e.id id apart.0

delete-head :
    (t : Table ℕ) (id co : ℕ) (es : List (Entry ℕ))
    → id ≢ no_id
    → get_elem? t.buckets (slot t id) ≡ some (record { id = id; value = some co; next = es })
    → delete t id
      ≡ some (
        record t {
          count = dec_int t.count;
          buckets =
              set t.buckets
                (slot t id)
                (drop_head (record { id = id; value = some co; next = es }) es);
        },
        pos 0,
        some (some co),
      )
unfolding delete
delete-head t id co es valid head = rw head (rw (ne→== id no_id valid, ==_refl id) refl)

module _ {T : Type 0} where
  -- A registered coroutine that is on its own, whose entry is the head of its bucket.
  pub record IsHead (w : World T) (co : ℕ) (es : List (Entry ℕ)) : Type 0 where
    pub pooled : has_flag w.sched co incoropool ≡ false
    pub asymmetric : has_flag w.sched co asymmetric ≡ false
    pub plain : has_flag w.sched co iomultiplexing ≡ false
    pub set : (w.sched.coroutines co).sched ≡ true
    pub valid : (w.sched.coroutines co).cid ≢ no_id
    pub head :
        get_elem? w.sched.cid_co_map.buckets (slot w.sched.cid_co_map (w.sched.coroutines co).cid)
        ≡ some (record { id = (w.sched.coroutines co).cid; value = some co; next = es })

  -- The world behind a callback that has deleted the head itself.
  without_head : World T → ℕ → List (Entry ℕ) → World T
  without_head w co es = with_sched w (record w.sched {
    coro_count = dec_int w.sched.coro_count;
    cid_co_map = record w.sched.cid_co_map {
      count = dec_int w.sched.cid_co_map.count;
      buckets =
          set w.sched.cid_co_map.buckets (slot w.sched.cid_co_map (w.sched.coroutines co).cid) (
            drop_head (record { id = (w.sched.coroutines co).cid; value = some co; next = es }) es);
    };
  })

  coro_abort-head :
      (outside : Outside) (w : World T) (co : ℕ) (es : List (Entry ℕ))
      → IsHead w co es
      → coro_abort outside w co ≡ some (without_head w co es)
  unfolding coro_abort free_coroutine unregister close_epoll without_head
  coro_abort-head outside w co es h =
      rw (h.pooled, h.asymmetric)
        (rw (h.set) (
          rw (delete-head w.sched.cid_co_map (w.sched.coroutines co).cid co es h.valid h.head)
            (rw h.plain refl)))

  kill-head :
      (outside : Outside) (w : World T) (co : ℕ) (es : List (Entry ℕ))
      → IsHead w co es
      → kill outside w (w.sched.coroutines co).cid
        ≡ kill_head outside w
            (slot w.sched.cid_co_map (w.sched.coroutines co).cid)
            (record { id = (w.sched.coroutines co).cid; value = some co; next = es })
  unfolding kill
  kill-head outside w co es h =
      let id = (w.sched.coroutines co).cid in
      rw h.head (rw (ne→== id no_id h.valid) (rw (==_refl id) refl))

  kill_head-alone :
      (outside : Outside) (w : World T) (co : ℕ)
      → IsHead w co []
      → (w' : World T) × (kill_head outside w
            (slot w.sched.cid_co_map (w.sched.coroutines co).cid)
            (record { id = (w.sched.coroutines co).cid; value = some co; next = [] })
          ≡ some w')
        × (w'.sched.cid_co_map.count ≡ dec_int (dec_int w.sched.cid_co_map.count))
        × (w'.sched.coro_count ≡ dec_int w.sched.coro_count)
  unfolding kill_head kill_value without_head drop_head
  kill_head-alone outside w co h =
      let t = w.sched.cid_co_map in
      let i = slot t (w.sched.coroutines co).cid in
      let again =
        get_elem?-set t.buckets i _ (record { id = no_id; value = none; next = [] }) h.head in
      let t₁ : Table ℕ = record t {
        count = dec_int t.count;
        buckets = set t.buckets i (record { id = no_id; value = none; next = [] });
      } in
      let w₁ =
        with_sched w
          (record w.sched { coro_count = dec_int w.sched.coro_count; cid_co_map = t₁ }) in
      let w₂ = drop_count (
        with_cids w₁ (record t₁ {
          buckets = set t₁.buckets i (record { id = no_id; value = none; next = [] });
        })) in
      (w₂, rw (coro_abort-head outside w co [] h) (rw again refl), refl, refl)

  kill_head-chained :
      (outside : Outside) (w : World T) (co : ℕ) (e : Entry ℕ) (es : List (Entry ℕ))
      → IsHead w co (e ∷ es)
      → All (λ x. x.id ≢ e.id) es
      → kill_head outside w
          (slot w.sched.cid_co_map (w.sched.coroutines co).cid)
          (record { id = (w.sched.coroutines co).cid; value = some co; next = e ∷ es })
        ≡ none
  unfolding kill_head kill_value without_head drop_head
  kill_head-chained outside w co e es h apart =
      let t = w.sched.cid_co_map in
      let i = slot t (w.sched.coroutines co).cid in
      let again =
        get_elem?-set t.buckets i _ (record { id = e.id; value = e.value; next = es }) h.head in
      rw (coro_abort-head outside w co (e ∷ es) h)
        (rw again (rw (starts_with-apart e.id es apart) refl))

  settle-kill :
      (tree : SleepTree T) (outside : Outside) (w : World T) (co : ℕ)
      → has_flag w.sched co killed ≡ true
      → has_flag w.sched co sleeping ≡ false
      → settle tree outside w co ≡ (
          kill outside
            (with_sched w (record w.sched { curr_thread = none }))
            (w.sched.coroutines co).cid
          >>= λ w'. some (w', minus_one))
  unfolding settle cancel_sleep
  settle-kill tree outside w co dead up = rw dead (rw up refl)

  -- How the resume of the killed coroutine ends, with the other entries of its bucket.
  pub Killed : World T → List (Entry ℕ) → Option (World T × ℤ) → Type 0
  Killed w [] o =
      (w' : World T) × (o ≡ some (w', minus_one))
      × (w'.sched.cid_co_map.count ≡ dec_int (dec_int w.sched.cid_co_map.count))
      × (w'.sched.coro_count ≡ dec_int w.sched.coro_count)
  Killed w (e ∷ es) o = o ≡ none

  outside_of : World T → World T
  outside_of w = with_sched w (record w.sched { curr_thread = none })

  outside_of-IsHead :
      (w : World T) (co : ℕ) (es : List (Entry ℕ)) → IsHead w co es → IsHead (outside_of w) co es
  unfolding outside_of
  outside_of-IsHead w co es h = record {
    pooled = h.pooled;
    asymmetric = h.asymmetric;
    plain = h.plain;
    set = h.set;
    valid = h.valid;
    head = h.head;
  }

  settle-head :
      (tree : SleepTree T) (outside : Outside) (w : World T) (co : ℕ) (es : List (Entry ℕ))
      → has_flag w.sched co killed ≡ true
      → has_flag w.sched co sleeping ≡ false
      → IsHead w co es
      → settle tree outside w co ≡ (
          kill_head outside
            (outside_of w)
            (slot w.sched.cid_co_map (w.sched.coroutines co).cid)
            (record { id = (w.sched.coroutines co).cid; value = some co; next = es })
          >>= λ w'. some (w', minus_one))
  unfolding outside_of
  settle-head tree outside w co es dead up h =
      settle-kill tree outside w co dead up
      ∙ ap (λ o. o >>= λ w'. some (w', minus_one))
          (kill-head outside (outside_of w) co es
            (unfold outside_of in outside_of-IsHead w co es h))

  -- A registered coroutine that belongs to no pool, is not asymmetric and has no epoll descriptor of
  -- its own is killed, awake. Its entry is the head of its bucket in the table of the ids, and the
  -- other entries of the bucket have different ids. If there are none, the resume returns -1, and the
  -- table counts the coroutine out twice, the scheduler once. If there are, the run is undefined.
  pub settle-Killed :
      (tree : SleepTree T) (outside : Outside) (w : World T) (co : ℕ) (es : List (Entry ℕ))
      → has_flag w.sched co killed ≡ true
      → has_flag w.sched co sleeping ≡ false
      → IsHead w co es
      → AreApart es
      → Killed w es (settle tree outside w co)
  unfolding Killed outside_of AreApart
  settle-Killed tree outside w co [] dead up h apart =
      let (w', run, table, count) =
        kill_head-alone outside (outside_of w) co
          (unfold outside_of in outside_of-IsHead w co [] h) in
      (
        w',
        settle-head tree outside w co [] dead up h ∙ ap (λ o. o >>= λ k. some (k, minus_one)) run,
        table,
        count,
      )
  settle-Killed tree outside w co (e ∷ es) dead up h apart =
      settle-head tree outside w co (e ∷ es) dead up h
      ∙ ap (λ o. o >>= λ k. some (k, minus_one))
          (kill_head-chained outside (outside_of w) co e es
            (unfold outside_of in outside_of-IsHead w co (e ∷ es) h) apart.0)
