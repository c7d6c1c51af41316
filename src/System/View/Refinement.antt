-- ===== src/System/View/Refinement.antt =====
-- Each event of the system is a move of the maps.
use csi_sharedhostpath.Base.{
  Bool, true, false, not, ◌&&◌, Option, none, some, List, [], ◌∷◌, ◌++◌, ◌≡◌, ◌≢◌, refl, sym, ap,
  ◌∙◌, inl, inr, Bool-cases, arith, Text, ◌==◌, text_eq, if◌then◌else◌,
}
use csi_sharedhostpath.Base.Int.{ℤ}
use csi_sharedhostpath.Controller.Expansion.Growth.{first-set_capacity}
use csi_sharedhostpath.Controller.Publishing.Table.{asked_info}
use csi_sharedhostpath.Controller.Requests.{PublishRequest, UnpublishRequest}
use csi_sharedhostpath.Host.Db.Laws.{
  Tables, first, keep, has_id, is_controller_info, is_node_info, set_capacity, put_node,
}
use csi_sharedhostpath.Host.Rows.{
  Volume, NodeInfo, ControllerPublishVolumeInfo, NodePublishVolumeInfo,
}
use csi_sharedhostpath.Node.{NodePublishRequest, NodeUnpublishRequest}
use csi_sharedhostpath.Node.Publishing.Table.{asked_node_info}
use csi_sharedhostpath.System.{Event}
use csi_sharedhostpath.Host.World.{World, Host}
use csi_sharedhostpath.Host.Db.Laws.{DbLaws}
use csi_sharedhostpath.Node.{Devices}
use csi_sharedhostpath.Volumes.Paths.{VolumeHelper}
use csi_sharedhostpath.Volumes.Store.Delete.{first-has_id}
use csi_sharedhostpath.System.{serve_all}
use csi_sharedhostpath.System.Lasting.{first-set_capacity-other}
use csi_sharedhostpath.System.Refinement.{AnswersNames, serve_all-Steps}
use csi_sharedhostpath.System.Steps.{
  AllSmall, Step, stays, creates, deletes, expands, publishes, unpublishes, node_publishes,
  node_unpublishes, sees, Steps, done, next,
}
use csi_sharedhostpath.System.View.{
  view, at, at_node, at_path, or_else, Move, rests, makes, drops, grows, opens, closes, mounts,
  unmounts, ticks, Moves, ended, moved,
}

module _ {A : Type 0} where
  first-append :
      (p : A → Bool) (l : List A) (x : A)
      → first p (l ++ (x ∷ [])) ≡ or_else (first p l) (if p x then some x else none)
  first-append p [] x = refl
  first-append p (y ∷ l) x = ground (arith, first-append p l x)

  -- The rows under one key go, and the other keys keep theirs.
  first-keep-at :
      (p q : A → Bool) (same : Bool) (l : List A)
      → (same ≡ true → (x : A) → p x ≡ q x)
      → (same ≡ false → (x : A) → p x ≡ true → q x ≡ false)
      → first p (keep (λ x. not (q x)) l) ≡ (if same then none else first p l)
  first-keep-at p q same [] alike apart = ground arith
  first-keep-at p q true (x ∷ l) alike apart =
      let here = alike refl x in ground (arith, first-keep-at p q true l alike apart)
  first-keep-at p q false (x ∷ l) alike apart =
      let there = apart refl x in
      elim (Bool-cases (p x)) [
        | inl b ↦ let n = there b in ground (arith, first-keep-at p q false l alike apart)
        | inr b ↦ ground (arith, first-keep-at p q false l alike apart)
      ]

first-put_node :
    (i : NodeInfo) (l : List NodeInfo) (x : Text)
    → first (λ (j : NodeInfo). j.id == x) (put_node i l)
      ≡ at i.id (some i) (λ y. first (λ (j : NodeInfo). j.id == y) l) x
first-put_node i [] x = ground arith
first-put_node i (j ∷ l) x = ground (arith, first-put_node i l x)

volume-add_volume :
    (v : Volume) (l : List Volume) (x : Text)
    → first (has_id v.vol_id) l ≡ none
    → first (has_id x) (l ++ (v ∷ [])) ≡ at v.vol_id (some v) (λ y. first (has_id y) l) x
volume-add_volume v l x fresh = elim (Bool-cases (v.vol_id == x)) [
  | inl same ↦
      let one : v.vol_id ≡ x = ground arith in
      let absent : first (has_id x) l ≡ none = rw one at fresh in
      ground (arith, first-append (has_id x) l v)
  | inr apart ↦ ground (arith, first-append (has_id x) l v)
]

volume-set_capacity :
    (volid : Text) (v : Volume) (c : ℤ) (l : List Volume) (x : Text)
    → first (has_id volid) l ≡ some v
    → first (has_id x) (set_capacity volid c l)
      ≡ at volid (some (record v { capacity = c })) (λ y. first (has_id y) l) x
volume-set_capacity volid v c l x there = elim (Bool-cases (volid == x)) [
  | inl same ↦
      let one : volid ≡ x = ground arith in
      let here : first (has_id x) l ≡ some v = rw one at there in
      first-set_capacity x volid c l v one here ∙ sym (ground arith)
  | inr apart ↦
      let differ : volid ≢ x = λ e. ground arith in
      first-set_capacity-other x volid c l differ ∙ sym (ground arith)
]

volume-without_volume :
    (volid : Text) (l : List Volume) (x : Text)
    → first (has_id x) (keep (λ v. not (has_id volid v)) l)
      ≡ at volid none (λ y. first (has_id y) l) x
volume-without_volume volid l x =
    first-keep-at (has_id x) (has_id volid) (volid == x) l (λ same v. ground arith)
      (λ apart v here. ground arith)

or_else-none : {A : Type 0} (o : Option A) → or_else o none ≡ o
or_else-none none = refl
or_else-none (some a) = refl

info-add :
    (req : PublishRequest) (l : List ControllerPublishVolumeInfo) (x y : Text)
    → first (is_controller_info req.volume_id req.node_id) l ≡ none
    → first (is_controller_info x y) (l ++ (asked_info req ∷ []))
      ≡ at_node req.volume_id req.node_id
          (some (asked_info req))
          (λ volid node. first (is_controller_info volid node) l)
          x
          y
info-add req l x y absent = elim (Bool-cases (req.volume_id == x && req.node_id == y)) [
  | inl same ↦
      let volume_is : req.volume_id ≡ x = ground arith in
      let node_is : req.node_id ≡ y = ground arith in
      let gone : first (is_controller_info x y) l ≡ none = rw (volume_is, node_is) at absent in
      first-append (is_controller_info x y) l (asked_info req) ∙ ground arith
  | inr apart ↦
      first-append (is_controller_info x y) l (asked_info req)
      ∙ ground (arith, or_else-none (first (is_controller_info x y) l))
]

info-without :
    (req : UnpublishRequest) (l : List ControllerPublishVolumeInfo) (x y : Text)
    → first
        (is_controller_info x y)
        (keep (λ i. not (is_controller_info req.volume_id req.node_id i)) l)
      ≡ at_node req.volume_id req.node_id none
          (λ volid node. first (is_controller_info volid node) l)
          x
          y
info-without req l x y =
    first-keep-at (is_controller_info x y) (is_controller_info req.volume_id req.node_id)
      (req.volume_id == x && req.node_id == y) l (λ same i. ground arith)
      (λ apart i here. ground arith)

mount-add :
    (node : Text) (req : NodePublishRequest) (raw : Bool) (l : List NodePublishVolumeInfo)
    (x y z : Text)
    → first (is_node_info x y z) (l ++ (asked_node_info node req raw ∷ []))
      ≡ at_path req.volume_id node req.target_path
          (or_else
            (first (is_node_info req.volume_id node req.target_path) l)
            (some (asked_node_info node req raw)))
          (λ volid n path. first (is_node_info volid n path) l)
          x
          y
          z
mount-add node req raw l x y z =
    let row = asked_node_info node req raw in
    elim (Bool-cases (req.volume_id == x && node == y && req.target_path == z)) [
      | inl same ↦
          let volume_is : req.volume_id ≡ x = ground arith in
          let node_is : node ≡ y = ground arith in
          let path_is : req.target_path ≡ z = ground arith in
          let key : first (is_node_info req.volume_id node req.target_path) l
              ≡ first (is_node_info x y z) l =
            rw (volume_is, node_is, path_is) refl in
          first-append (is_node_info x y z) l row ∙ ground arith
      | inr apart ↦
          first-append (is_node_info x y z) l row
          ∙ ground (arith, or_else-none (first (is_node_info x y z) l))
    ]

mount-without :
    (node : Text) (req : NodeUnpublishRequest) (l : List NodePublishVolumeInfo) (x y z : Text)
    → first
        (is_node_info x y z)
        (keep (λ i. not (is_node_info req.volume_id node req.target_path i)) l)
      ≡ at_path req.volume_id node req.target_path none
          (λ volid n path. first (is_node_info volid n path) l)
          x
          y
          z
mount-without node req l x y z =
    first-keep-at (is_node_info x y z) (is_node_info req.volume_id node req.target_path)
      (req.volume_id == x && node == y && req.target_path == z) l (λ same i. ground arith)
      (λ apart i here. ground arith)

Step-Move :
    {F : Type 0} (vh : VolumeHelper) (event : Event F) (t u : Tables)
    → Step vh event t u
    → Move event (view t) (view u)
Step-Move vh event t u (stays same) = rests (ap view same)
Step-Move vh event t u (creates req v is new_id named new_name here size grown) =
    makes req v is new_id named (
      ap view grown ∙ λ i. record (view t) {
        volume = λ x. volume-add_volume v t.volumes x new_id i;
      })
Step-Move vh event t u (deletes volid is less) = drops volid is (
    ap view less ∙ λ i. record (view t) { volume = λ x. volume-without_volume volid t.volumes x i })
Step-Move vh event t u (expands req v c is there size more grown) =
    let named = first-has_id req.volume_id t.volumes v there in
    grows req v c is there more (
      ap view grown
      ∙ ap (λ n. view (record t { volumes = set_capacity n c t.volumes })) named
      ∙ λ i. record (view t) {
        volume = λ x. volume-set_capacity req.volume_id v c t.volumes x there i;
      })
Step-Move vh event t u (publishes req is absent grown) = opens req is absent (
    ap view grown ∙ λ i. record (view t) {
      info = λ x y. info-add req t.controller_infos x y absent i;
    })
Step-Move vh event t u (unpublishes req is less) = closes req is (
    ap view less ∙ λ i. record (view t) { info = λ x y. info-without req t.controller_infos x y i })
Step-Move vh event t u (node_publishes node req raw is there grown) = mounts node req raw is (
    ap view grown ∙ λ i. record (view t) {
      mount = λ x y z. mount-add node req raw t.node_infos x y z i;
    })
Step-Move vh event t u (node_unpublishes node req is less) = unmounts node req is (
    ap view less ∙ λ i. record (view t) {
      mount = λ x y z. mount-without node req t.node_infos x y z i;
    })
Step-Move vh event t u (sees n is put) =
    ticks n is (ap view put ∙ λ i. record (view t) { node = λ x. first-put_node n t.nodes x i })

Steps-Moves :
    {F : Type 0} (vh : VolumeHelper) (events : List (Event F)) (t u : Tables)
    → Steps vh events t u
    → Moves events (view t) (view u)
Steps-Moves vh [] t u done = ended
Steps-Moves vh (event ∷ events) t u (next {u = v} step steps) =
    moved (Step-Move vh event t v step) (Steps-Moves vh events v u steps)

module _ {D F : Type 0} (host : Host D F) (laws : DbLaws host.db) (devices : Devices F)
    (vh : VolumeHelper) (answering : AnswersNames host laws devices vh) (tp fp : Text) where
  open laws use {tables}

  -- Read as maps, which forget the order of the rows, the tables make a move for each event of
  -- every sequence: nothing changes; or a request to create a volume puts one of its name at an
  -- identifier that was free; or a request to delete clears the place of the volume, or one to
  -- expand puts the volume there with a capacity that is not smaller; or a publication is put at
  -- its volume and node where there was none, or cleared, by the request for it; or the row of a
  -- mount is put at its volume, node and path, unless one is there, or cleared; or a tick of its
  -- clock puts when the node was seen. The queries for a name are answered, and requests for a
  -- size ask for at most 2^63 - 2^20 bytes.
  pub serve_all-Moves :
      (events : List (Event F)) (w : World D F)
      → AllSmall events
      → Moves events
          (view (tables w.db))
          (view (tables (serve_all host devices vh tp fp events w).db))
  serve_all-Moves events w small =
      Steps-Moves vh events (tables w.db) _
        (serve_all-Steps host laws devices vh answering tp fp events w small)
