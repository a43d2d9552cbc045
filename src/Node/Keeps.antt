-- ===== src/Node/Keeps.antt =====
-- What `connectLostSiblings` leaves as it is.
use mathlib.Core.Path.{subst}
use cabinet.Base.{
  Bool, Code, List, [], ap, at, err, false, if◌then◌else◌, insert, lebℤ, not, ok, pos, refl, sym,
  true, ℤ, ◌+ℤ◌, ◌∙◌, ◌∷◌, ◌≡◌,
}
use cabinet.Client.{Client}
use cabinet.Cluster.{Cluster}
use cabinet.Node.{
  Connecting, Node, Round, after_add_sibling, connect_lost_siblings, connect_sibling,
  connect_siblings, new_sibling, with_siblings,
}
use cabinet.Siblings.{Siblings, add_siblings}
use cabinet.Siblings.Invariant.{IsSound, add_siblings-LeavesSound}

-- The siblings have changed, and nothing else; every connected sibling still has a connection.
record IsReconnected (c : Cluster) (r : Connecting) : Type 0 where
  siblings : Siblings
  cluster : r.1 ≡ with_siblings siblings c
  sound : IsSound siblings

IsReconnected-if :
    (c : Cluster) (b : Bool) (u v : Connecting)
    → IsReconnected c u
    → IsReconnected c v
    → IsReconnected c (if b then u else v)
IsReconnected-if c true u v hu hv = hu
IsReconnected-if c false u v hu hv = hv

same-IsReconnected : (c : Cluster) (next : ℤ) → IsSound c.siblings → IsReconnected c (next, c, [])
same-IsReconnected c next sound = record { siblings = c.siblings; cluster = refl; sound = sound }

after_add-IsReconnected :
    (next : ℤ) (sibling : Client) (c : Cluster) (r : Code × Siblings)
    → IsSound c.siblings
    → IsSound r.1
    → IsReconnected c (after_add_sibling next sibling c r)
after_add-IsReconnected next sibling c (err, s) sound sound' = same-IsReconnected c next sound
after_add-IsReconnected next sibling c (ok, s) sound sound' = record {
  siblings = record s { connect_trying = insert sibling.cluster_id true s.connect_trying };
  cluster = refl;
  sound = sound';
}

connect_sibling-IsReconnected :
    (round : Round) (id next : ℤ) (c : Cluster)
    → IsSound c.siblings
    → IsReconnected c (connect_sibling round id next c)
unfolding connect_sibling
connect_sibling-IsReconnected round id next c sound =
    let s = c.siblings in
    let same = same-IsReconnected c next sound in
    IsReconnected-if c (lebℤ s.cluster_id id) _ _ same (
      IsReconnected-if c (at s.connect_status id false) _ _ same (
        IsReconnected-if c (at s.connect_trying id false) _ _ same (
          IsReconnected-if c (not (round.sibling_reached id)) _ _ same (
            IsReconnected-if c (not (round.sibling_watched id)) _ _
              (same-IsReconnected c (next +ℤ pos 1) sound)
              (after_add-IsReconnected (next +ℤ pos 1) (new_sibling next id) c
                (add_siblings c.commit_index (new_sibling next id) s) sound
                (add_siblings-LeavesSound s sound c.commit_index (new_sibling next id)).sound)))))

connect_siblings-IsReconnected :
    (round : Round) (ids : List ℤ) (next : ℤ) (c : Cluster)
    → IsSound c.siblings
    → IsReconnected c (connect_siblings round ids next c)
unfolding connect_siblings
connect_siblings-IsReconnected round [] next c sound = same-IsReconnected c next sound
connect_siblings-IsReconnected round (id ∷ ids) next c sound =
    let step = connect_sibling-IsReconnected round id next c sound in
    let (next', c', sent) = connect_sibling round id next c in
    let rest =
      connect_siblings-IsReconnected round ids next' c'
        (subst IsSound (sym (ap (λ (d : Cluster). d.siblings) step.cluster)) step.sound) in
    record {
      siblings = rest.siblings;
      cluster = rest.cluster ∙ ap (with_siblings rest.siblings) step.cluster;
      sound = rest.sound;
    }

-- `connectLostSiblings` changes only the siblings and the client numbers, and keeps a connection for
-- every sibling that counts as connected.
pub connect_lost_siblings-IsReconnected :
    (round : Round) (n : Node)
    → IsSound n.cluster.siblings
    → (s : Siblings) × ((connect_lost_siblings round n).0.cluster ≡ with_siblings s n.cluster)
      × ((connect_lost_siblings round n).0.children ≡ n.children)
      × IsSound s
unfolding connect_lost_siblings
connect_lost_siblings-IsReconnected round n sound =
    let after =
      connect_siblings-IsReconnected round n.cluster.siblings.cluster_id_vector n.client_id_max
        n.cluster sound in
    (after.siblings, after.cluster, refl, after.sound)
