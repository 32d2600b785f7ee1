-- ===== src/Content/Node/Laws.antt =====
-- The encoding of a content node (src/content/mod.rs): its length is `ContentNode::size`, it decodes
-- to the node, and nothing else decodes to it.
use txtcel_program.Base.{◌<◌, length, All, u32_mod, arith}
use txtcel_program.Borsh.{Borsh}
use txtcel_program.Borsh.Laws.{
  IsFront, IsFront-then, Fits, FitsI64, IsBorsh, HasSize, RoundTrips, Canonical, bind-some,
}
use txtcel_program.Content.Node.{
  ContentHeader, ContentNode, content_header_size, content_node_size, content_header_codec,
  content_node_codec,
}

pub record ContentHeaderInRange (x : ContentHeader) : Type 0 where
  pub tag : Fits 1 x.tag
  pub alloc_seq : Fits 4 x.alloc_seq
  pub slot : Fits 1 x.slot
  pub thread : Fits 32 x.thread
  pub author : Fits 32 x.author
  pub created_at : FitsI64 x.created_at
  pub reply_alloc_seq : Fits 4 x.reply_alloc_seq
  pub reply_slot : Fits 1 x.reply_slot

pub record ContentNodeInRange (x : ContentNode) : Type 0 where
  pub header : ContentHeaderInRange x.header
  pub kind : Fits 2 x.kind
  pub body_length : length x.body < u32_mod
  pub body : All (Fits 1) x.body

module _ {b : Borsh} (l : IsBorsh b) where
  content_header_codec-HasSize :
      (x : ContentHeader) → HasSize (content_header_codec b) x content_header_size
  unfolding content_header_codec content_header_size
  content_header_codec-HasSize x rest =
      rw
        (
          l.int_size 1 x.tag _,
          l.int_size 4 x.alloc_seq _,
          l.int_size 1 x.slot _,
          l.int_size 32 x.thread _,
          l.int_size 32 x.author _,
          l.i64_size x.created_at _,
          l.int_size 4 x.reply_alloc_seq _,
          l.int_size 1 x.reply_slot _,
        )
        (omega arith)

  pub content_node_codec-HasSize :
      (x : ContentNode) → HasSize (content_node_codec b) x (content_node_size (length x.body))
  unfolding content_node_codec content_node_size
  content_node_codec-HasSize x rest =
      rw (content_header_codec-HasSize x.header _, l.int_size 2 x.kind _, l.vec_size 1 x.body _)
        (omega arith)

  content_header_codec-RoundTrips :
      (x : ContentHeader) → ContentHeaderInRange x → RoundTrips (content_header_codec b) x
  unfolding content_header_codec
  content_header_codec-RoundTrips x h rest = rw (
    l.int_round 1 x.tag h.tag _,
    l.int_round 4 x.alloc_seq h.alloc_seq _,
    l.int_round 1 x.slot h.slot _,
    l.int_round 32 x.thread h.thread _,
    l.int_round 32 x.author h.author _,
    l.i64_round x.created_at h.created_at _,
    l.int_round 4 x.reply_alloc_seq h.reply_alloc_seq _,
    l.int_round 1 x.reply_slot h.reply_slot _,
  )

  pub content_node_codec-RoundTrips :
      (x : ContentNode) → ContentNodeInRange x → RoundTrips (content_node_codec b) x
  unfolding content_node_codec
  content_node_codec-RoundTrips x h rest = rw (
    content_header_codec-RoundTrips x.header h.header _,
    l.int_round 2 x.kind h.kind _,
    l.vec_round 1 x.body h.body_length h.body _,
  )

  content_header_codec-Canonical : Canonical (content_header_codec b) ContentHeaderInRange
  unfolding content_header_codec
  content_header_codec-Canonical bytes x rest e =
      let (p0, e0, k0) = bind-some ((b.int 1).get bytes) _ e in
      let (p1, e1, k1) = bind-some ((b.int 4).get p0.1) _ k0 in
      let (p2, e2, k2) = bind-some ((b.int 1).get p1.1) _ k1 in
      let (p3, e3, k3) = bind-some ((b.int 32).get p2.1) _ k2 in
      let (p4, e4, k4) = bind-some ((b.int 32).get p3.1) _ k3 in
      let (p5, e5, k5) = bind-some (b.i64.get p4.1) _ k4 in
      let (p6, e6, k6) = bind-some ((b.int 4).get p5.1) _ k5 in
      let (p7, e7, k7) = bind-some ((b.int 1).get p6.1) _ k6 in
      ground (
        arith,
        l.int_canonical 1 bytes p0.0 p0.1 e0,
        l.int_canonical 4 p0.1 p1.0 p1.1 e1,
        l.int_canonical 1 p1.1 p2.0 p2.1 e2,
        l.int_canonical 32 p2.1 p3.0 p3.1 e3,
        l.int_canonical 32 p3.1 p4.0 p4.1 e4,
        l.i64_canonical p4.1 p5.0 p5.1 e5,
        l.int_canonical 4 p5.1 p6.0 p6.1 e6,
        l.int_canonical 1 p6.1 p7.0 p7.1 e7,
      )

  pub content_node_codec-Canonical : Canonical (content_node_codec b) ContentNodeInRange
  unfolding content_node_codec
  content_node_codec-Canonical bytes x rest e =
      let (p0, e0, k0) = bind-some ((content_header_codec b).get bytes) _ e in
      let (p1, e1, k1) = bind-some ((b.int 2).get p0.1) _ k0 in
      let (p2, e2, k2) = bind-some ((b.vec 1).get p1.1) _ k1 in
      ground (
        arith,
        content_header_codec-Canonical bytes p0.0 p0.1 e0,
        l.int_canonical 2 p0.1 p1.0 p1.1 e1,
        l.vec_canonical 1 p1.1 p2.0 p2.1 e2,
      )

  header-IsFront : (x : ContentHeader) → IsFront ((content_header_codec b).put x)
  unfolding content_header_codec
  header-IsFront x = IsFront-then (l.int_front 1 x.tag) (
      IsFront-then (l.int_front 4 x.alloc_seq) (
        IsFront-then (l.int_front 1 x.slot) (
          IsFront-then (l.int_front 32 x.thread) (
            IsFront-then (l.int_front 32 x.author) (
              IsFront-then (l.i64_front x.created_at)
                (IsFront-then (l.int_front 4 x.reply_alloc_seq) (l.int_front 1 x.reply_slot)))))))

  pub content_node_codec-IsFront : (x : ContentNode) → IsFront ((content_node_codec b).put x)
  unfolding content_node_codec
  content_node_codec-IsFront x =
      IsFront-then {f = (content_header_codec b).put x.header} (header-IsFront x.header)
        (IsFront-then (l.int_front 2 x.kind) (l.vec_front 1 x.body))
