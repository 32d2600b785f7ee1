-- ===== src/Content/Node.antt =====
-- The content node, the on-chain envelope of one message, and its Borsh encoding
-- (src/content/mod.rs).
pub mod Laws
use txtcel_program.Base.{ℕ, ◌+◌, some}
use txtcel_program.Base.Int.{ℤ}
use txtcel_program.Borsh.{Bytes, Codec, Borsh, ◌>>=◌}
use txtcel_program.Runtime.{Pubkey}

pub record ContentHeader : Type 0 where
  pub tag : ℕ
  pub alloc_seq : ℕ
  pub slot : ℕ
  pub thread : Pubkey
  pub author : Pubkey
  pub created_at : ℤ
  pub reply_alloc_seq : ℕ
  pub reply_slot : ℕ

pub record ContentNode : Type 0 where
  pub header : ContentHeader
  pub kind : ℕ
  pub body : Bytes

unfoldable pub content_header_size : ℕ
content_header_size = 1 + 4 + 1 + 32 + 32 + 8 + 4 + 1

unfoldable pub content_node_size : ℕ → ℕ
unfolding content_header_size
content_node_size body_len = content_header_size + 2 + 4 + body_len

module _ (b : Borsh) where
  unfoldable pub content_header_codec : Codec ContentHeader
  content_header_codec = record {
    put = λ x rest. (b.int 1).put x.tag (
        (b.int 4).put x.alloc_seq (
          (b.int 1).put x.slot (
            (b.int 32).put x.thread (
              (b.int 32).put x.author (
                b.i64.put x.created_at
                  ((b.int 4).put x.reply_alloc_seq ((b.int 1).put x.reply_slot rest)))))));
    get = λ bytes. do
      (x_tag, r0) ← (b.int 1).get bytes
      (x_alloc_seq, r1) ← (b.int 4).get r0
      (x_slot, r2) ← (b.int 1).get r1
      (x_thread, r3) ← (b.int 32).get r2
      (x_author, r4) ← (b.int 32).get r3
      (x_created_at, r5) ← b.i64.get r4
      (x_reply_alloc_seq, r6) ← (b.int 4).get r5
      (x_reply_slot, rest) ← (b.int 1).get r6
      some (
        record {
          tag = x_tag;
          alloc_seq = x_alloc_seq;
          slot = x_slot;
          thread = x_thread;
          author = x_author;
          created_at = x_created_at;
          reply_alloc_seq = x_reply_alloc_seq;
          reply_slot = x_reply_slot;
        },
        rest,
      );
  }

  unfoldable pub content_node_codec : Codec ContentNode
  unfolding content_header_codec
  content_node_codec = record {
    put = λ x rest.
        content_header_codec.put x.header ((b.int 2).put x.kind ((b.vec 1).put x.body rest));
    get = λ bytes. do
      (x_header, r0) ← content_header_codec.get bytes
      (x_kind, r1) ← (b.int 2).get r0
      (x_body, rest) ← (b.vec 1).get r1
      some (record { header = x_header; kind = x_kind; body = x_body }, rest);
  }
