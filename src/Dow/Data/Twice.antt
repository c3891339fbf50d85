-- ===== src/Dow/Data/Twice.antt =====
-- What new data carries, and when it comes.
use miniature_dangerzone.Common.{
  ℕ, ◌≤◌, ◌<◌, ◌≡◌, refl, true, false, not, [], ◌∷◌, ◌++◌, some, arith, if◌then◌else◌, ◌/◌, ap, ◌∙◌,
}
use miniature_dangerzone.Config.{Config, sec_in_usec}
use miniature_dangerzone.Text.{hex8}
use miniature_dangerzone.Dow.{is_handover}
use miniature_dangerzone.Dow.Manager.{Item, Manager, Turn}
use miniature_dangerzone.Dow.Data.{event_delay, path_of, choose_data, make_item, new_data}

-- Every call sets the timer for the next one again: behind a second during a handover, and else in
-- at least half a second and less than 17.3 seconds.
pub new_data_rearms :
    (cfg : Config) (t : Turn) (m : Manager)
    → (delay : ℕ) × ((new_data cfg t m).data_timer ≡ some delay)
      × (500000 ≤ delay)
      × (delay < 17300000)
unfolding new_data event_delay make_item
new_data_rearms cfg t m =
    let delay = (if is_handover m.node.mode then sec_in_usec else event_delay t / 2) in
    (delay, ground arith, ground arith, ground arith)

-- The item that a call makes of a value.
abbrev pub item_of : Config → Turn → ℕ → Manager → Item
item_of cfg t value m = record {
  path = path_of t value m;
  value = hex8 value ++ 0 ∷ [];
  cached = true;
  broadcast = not cfg.int_int;
}

choose_fresh :
    (cfg : Config) (t : Turn) (m : Manager)
    → cfg.rebc_last ≡ true
    → m.send_old_data ≡ false
    → choose_data cfg t m ≡ (t.now, record m { old_data = t.now; send_old_data = true })
unfolding choose_data
choose_fresh cfg t m repeats none_kept = ground arith

choose_kept :
    (cfg : Config) (t : Turn) (m : Manager)
    → cfg.rebc_last ≡ true
    → m.send_old_data ≡ true
    → 1 ≤ m.old_data
    → choose_data cfg t m ≡ (m.old_data, record m { send_old_data = false })
unfolding choose_data
choose_kept cfg t m repeats kept late = ground arith

-- What a call outside a handover makes of what was chosen.
new_data_made :
    (cfg : Config) (t : Turn) (m chosen : Manager) (value : ℕ)
    → is_handover m.node.mode ≡ false
    → choose_data cfg t m ≡ (value, chosen)
    → let m' = new_data cfg t m in
      (m'.produced ≡ chosen.produced ++ item_of cfg t value chosen ∷ [])
      × (m'.old_data ≡ chosen.old_data)
      × (m'.send_old_data ≡ chosen.send_old_data)
      × (m'.node ≡ chosen.node)
unfolding new_data make_item
new_data_made cfg t m chosen value settled chose = (
  rw (settled, chose) refl,
  rw (settled, chose) refl,
  rw (settled, chose) refl,
  rw (settled, chose) refl,
)

-- Under DOW_REBC_LAST, two calls in a row outside a handover, the first of them at a time other than
-- 0 and with no value kept to be repeated, make two items with the same value, which is the time of
-- the first call; then no value is kept to be repeated.
pub new_data_twice :
    (cfg : Config) (t1 t2 : Turn) (m : Manager)
    → cfg.rebc_last ≡ true
    → is_handover m.node.mode ≡ false
    → m.send_old_data ≡ false
    → 1 ≤ t1.now
    → let m1 = new_data cfg t1 m in
      let m2 = new_data cfg t2 m1 in
      (a : Item) × (b : Item) × (m2.produced ≡ (m.produced ++ a ∷ []) ++ b ∷ [])
      × (a.value ≡ hex8 t1.now ++ 0 ∷ [])
      × (b.value ≡ a.value)
      × (m2.send_old_data ≡ false)
new_data_twice cfg t1 t2 m repeats settled none_kept late =
    let m1 = new_data cfg t1 m in
    let chosen1 = record m { old_data = t1.now; send_old_data = true } in
    let (made1, old1, send1, node1) =
      new_data_made cfg t1 m chosen1 t1.now settled (choose_fresh cfg t1 m repeats none_kept) in
    let chosen2 = record m1 { send_old_data = false } in
    let (made2, old2, send2, node2) =
      new_data_made cfg t2 m1 chosen2 m1.old_data (rw node1 settled)
        (choose_kept cfg t2 m1 repeats send1 (rw old1 late)) in
    (
      item_of cfg t1 t1.now chosen1,
      item_of cfg t2 m1.old_data chosen2,
      made2 ∙ ap (λ ps. ps ++ item_of cfg t2 m1.old_data chosen2 ∷ []) made1,
      refl,
      ap (λ v. hex8 v ++ 0 ∷ []) old1,
      send2,
    )
