-- ===== src/Instruction/Canonical.antt =====
-- What the entrypoint decodes (src/instruction.rs) is in range, and the bytes are its encoding.
use txtcel_program.Base.{ℕ, ◌==◌, ◌≡◌, sym, arith}
use mathlib.Core.Path.{subst}
use txtcel_program.Borsh.{Bytes, Borsh}
use txtcel_program.Borsh.Laws.{IsBorsh, Canonical}
use txtcel_program.Instruction.{
  ProgramInstruction, put_instruction, get_instruction, get_variant_0, get_variant_10,
  get_variant_20, program_instruction_codec,
}
use txtcel_program.Instruction.RoundTrip.{IsWireable}
use txtcel_program.Instruction.Decoding.{Each, absent, present, Each-bind, Each-if, Each-some}

module _ {b : Borsh} (l : IsBorsh b) (n : ℕ) (bytes : Bytes) where
  -- The instruction is in range, and its encoding is the number and the bytes.
  abbrev Decoded : ProgramInstruction × Bytes → Type 0
  Decoded (i, rest) = ((b.int 1).put n bytes ≡ put_instruction b i rest) × IsWireable i

  get_variant_20-Decoded : Each Decoded (get_variant_20 b n bytes)
  unfolding get_variant_20 put_instruction
  get_variant_20-Decoded =
      Each-if (n == 20) _ _
        (λ e.
          let same : n ≡ 20 = ground arith in
          Each-bind (l.int_canonical 4) bytes _ λ alloc_seq r0 e0 h0.
            Each-bind (l.int_canonical 1) r0 _ λ slot r1 e1 h1.
              Each-bind (l.int_canonical 2) r1 _ λ treasury_shard_idx r2 e2 h2.
                Each-bind (l.int_canonical 1) r2 _ λ author_fee_shard_idx r3 e3 h3.
                  Each-bind (l.int_canonical 8) r3 _
                    λ max_fee r4 e4 h4. present (cc, (h0, h1, h2, h3, h4)))
        (λ _.
          Each-if (n == 21) _ _
            (λ e.
              let same : n ≡ 21 = ground arith in
              Each-bind (l.int_canonical 32) bytes _ λ wallet r0 e0 h0. present (cc, h0))
            (λ _.
              Each-if (n == 22) _ _
                (λ e.
                  let same : n ≡ 22 = ground arith in
                  Each-bind (l.int_canonical 32) bytes _ λ wallet r0 e0 h0. present (cc, h0))
                (λ _.
                  Each-if (n == 23) _ _
                    (λ e.
                      let same : n ≡ 23 = ground arith in
                      Each-bind (l.vec_canonical 1) bytes _ λ chunk r0 e0 h0.
                        Each-bind (l.int_canonical 2) r0 _ λ treasury_shard_idx r1 e1 h1.
                          Each-bind (l.int_canonical 1) r1 _
                            λ author_fee_shard_idx r2 e2 h2. present (cc, (h0.0, h0.1, h1, h2)))
                    (λ _.
                      Each-if (n == 24) _ _
                        (λ e.
                          let same : n ≡ 24 = ground arith in
                          Each-bind (l.int_canonical 32) bytes _
                            λ new_admin r0 e0 h0. present (cc, h0))
                        (λ _.
                          Each-if (n == 25) _ _
                            (λ e.
                              let same : n ≡ 25 = ground arith in
                              Each-bind (l.int_canonical 32) bytes _
                                λ wallet r0 e0 h0. present (cc, h0))
                            (λ _.
                              Each-if (n == 26) _ _
                                (λ e.
                                  let same : n ≡ 26 = ground arith in
                                  Each-bind (l.int_canonical 32) bytes _
                                    λ wallet r0 e0 h0. present (cc, h0))
                                (λ _.
                                  Each-if (n == 27) _ _ (λ e. present (ground arith, tt))
                                    (λ _.
                                      Each-if (n == 28) _ _ (λ e. present (ground arith, tt))
                                        (λ _. absent)))))))))

  get_variant_10-Decoded : Each Decoded (get_variant_10 b n bytes)
  unfolding get_variant_10 put_instruction
  get_variant_10-Decoded =
      Each-if (n == 10) _ _
        (λ e.
          let same : n ≡ 10 = ground arith in
          Each-bind (l.int_canonical 32) bytes _ λ wallet r0 e0 h0. present (cc, h0))
        (λ _.
          Each-if (n == 11) _ _
            (λ e.
              let same : n ≡ 11 = ground arith in
              Each-bind (l.int_canonical 32) bytes _ λ wallet r0 e0 h0. present (cc, h0))
            (λ _.
              Each-if (n == 12) _ _
                (λ e.
                  let same : n ≡ 12 = ground arith in
                  Each-bind (l.int_canonical 8) bytes _ λ fee r0 e0 h0. present (cc, h0))
                (λ _.
                  Each-if (n == 13) _ _
                    (λ e.
                      let same : n ≡ 13 = ground arith in
                      Each-bind (l.int_canonical 4) bytes _ λ fee_bps r0 e0 h0. present (cc, h0))
                    (λ _.
                      Each-if (n == 14) _ _
                        (λ e.
                          let same : n ≡ 14 = ground arith in
                          Each-bind (l.int_canonical 4) bytes _
                            λ fee_bps r0 e0 h0. present (cc, h0))
                        (λ _.
                          Each-if (n == 15) _ _
                            (λ e.
                              let same : n ≡ 15 = ground arith in
                              Each-bind (l.int_canonical 4) bytes _
                                λ fee_bps r0 e0 h0. present (cc, h0))
                            (λ _.
                              Each-if (n == 16) _ _
                                (λ e.
                                  let same : n ≡ 16 = ground arith in
                                  Each-bind (l.int_canonical 4) bytes _
                                    λ fee_bps r0 e0 h0. present (cc, h0))
                                (λ _.
                                  Each-if (n == 17) _ _
                                    (λ e.
                                      let same : n ≡ 17 = ground arith in
                                      Each-bind (l.int_canonical 8) bytes _
                                        λ fee r0 e0 h0. present (cc, h0))
                                    (λ _.
                                      Each-if (n == 18) _ _
                                        (λ e.
                                          let same : n ≡ 18 = ground arith in
                                          Each-bind (l.int_canonical 8) bytes _
                                            λ fee r0 e0 h0. present (cc, h0))
                                        (λ _.
                                          Each-if (n == 19) _ _
                                            (λ e.
                                              let same : n ≡ 19 = ground arith in
                                              Each-bind (l.int_canonical 2) bytes _
                                                λ treasury_shard_idx r0 e0 h0.
                                                  Each-bind (l.int_canonical 1) r0 _
                                                    λ author_fee_shard_idx r1 e1 h1.
                                                      present (cc, (h0, h1)))
                                            (λ _. get_variant_20-Decoded))))))))))

  get_variant_0-Decoded : Each Decoded (get_variant_0 b n bytes)
  unfolding get_variant_0 put_instruction
  get_variant_0-Decoded =
      Each-if (n == 0) _ _
        (λ e.
          let same : n ≡ 0 = ground arith in
          Each-bind (l.int_canonical 8) bytes _ λ message_fee r0 e0 h0.
            Each-bind (l.int_canonical 2) r0 _ λ treasury_shard_idx r1 e1 h1.
              Each-bind (l.vec_canonical 1) r1 _
                λ title r2 e2 h2. present (cc, (h0, h1, h2.0, h2.1)))
        (λ _.
          Each-if (n == 1) _ _
            (λ e.
              let same : n ≡ 1 = ground arith in
              Each-bind (l.int_canonical 2) bytes _ λ kind r0 e0 h0.
                Each-bind (l.vec_canonical 1) r0 _ λ body r1 e1 h1.
                  Each-bind (l.vec_pair_canonical 4 1) r1 _ λ candidates r2 e2 h2.
                    Each-bind (l.int_canonical 2) r2 _ λ treasury_shard_idx r3 e3 h3.
                      Each-bind (l.int_canonical 1) r3 _ λ author_fee_shard_idx r4 e4 h4.
                        Each-bind (l.int_canonical 4) r4 _ λ reply_alloc_seq r5 e5 h5.
                          Each-bind (l.int_canonical 1) r5 _ λ reply_slot r6 e6 h6.
                            Each-bind (l.int_canonical 8) r6 _ λ max_fee r7 e7 h7.
                              present (cc, (h0, h1.0, h1.1, h2.0, h2.1, h3, h4, h5, h6, h7)))
            (λ _.
              Each-if (n == 2) _ _
                (λ e.
                  let same : n ≡ 2 = ground arith in
                  Each-bind (l.int_canonical 4) bytes _ λ alloc_seq r0 e0 h0. present (cc, h0))
                (λ _.
                  Each-if (n == 3) _ _
                    (λ e.
                      let same : n ≡ 3 = ground arith in
                      Each-bind (l.vec_canonical 2) bytes _
                        λ shard_indices r0 e0 h0. present (cc, h0))
                    (λ _.
                      Each-if (n == 4) _ _
                        (λ e.
                          let same : n ≡ 4 = ground arith in
                          Each-bind (l.vec_canonical 1) bytes _
                            λ shard_indices r0 e0 h0. present (cc, h0))
                        (λ _.
                          Each-if (n == 5) _ _ (λ e. present (ground arith, tt))
                            (λ _.
                              Each-if (n == 6) _ _
                                (λ e.
                                  let same : n ≡ 6 = ground arith in
                                  Each-bind (l.int_canonical 32) bytes _
                                    λ treasury r0 e0 h0. present (cc, h0))
                                (λ _.
                                  Each-if (n == 7) _ _
                                    (λ e.
                                      let same : n ≡ 7 = ground arith in
                                      Each-bind (l.int_canonical 32) bytes _
                                        λ treasury r0 e0 h0. present (cc, h0))
                                    (λ _.
                                      Each-if (n == 8) _ _
                                        (λ e.
                                          let same : n ≡ 8 = ground arith in
                                          Each-bind l.bool_canonical bytes _ λ enabled r0 e0 h0.
                                            Each-bind (l.int_canonical 2) r0 _
                                              λ treasury_shard_idx r1 e1 h1. present (cc, h1))
                                        (λ _.
                                          Each-if (n == 9) _ _
                                            (λ e.
                                              let same : n ≡ 9 = ground arith in
                                              Each-bind l.bool_canonical bytes _
                                                λ enabled r0 e0 h0. present (cc, tt))
                                            (λ _. get_variant_10-Decoded))))))))))

module _ {b : Borsh} (l : IsBorsh b) where
  -- What is decoded is in the range of its types, and its encoding is the bytes that were read.
  pub program_instruction_codec-Canonical : Canonical (program_instruction_codec b) IsWireable
  unfolding program_instruction_codec get_instruction
  program_instruction_codec-Canonical bytes i rest e =
      Each-some {D = λ x. (bytes ≡ put_instruction b x.0 x.1) × IsWireable x.0} _
        (Each-bind (l.int_canonical 1) bytes _ λ n fields same _.
          subst
            (λ t.
              Each (λ x. (t ≡ put_instruction b x.0 x.1) × IsWireable x.0)
                (get_variant_0 b n fields))
            (sym same) (get_variant_0-Decoded l n fields))
        e
