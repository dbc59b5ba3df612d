-- ===== src/DescriptorChain/Tests.antt =====
-- Chains of a few slices.
use virtiofsd.Common.{some, ◌≡◌, refl, ◌+◌, ◌<◌, ℕ, [], ◌∷◌, length, arith}
use virtiofsd.Common.Io.{ok, err, other}
use virtiofsd.Server.Writer.{Writer}
use virtiofsd.DescriptorChain.Consumer.{
  DescriptorChainConsumer, checked_add, bytes_in, chosen, advance, consumed, consume_chosen,
  consume,
}
use virtiofsd.DescriptorChain.Reader.{
  copied, copy_out, effect_of, access, more, access_all, read_exact, copied_to, write_all,
}
use virtiofsd.DescriptorChain.Flat.{flat}
use virtiofsd.DescriptorChain.ZeroCopy.{
  File, after, access_file, advanced, moved_on, zero_copy_on, zero_copy, Transferred,
  zero_copy-Transferred,
}
use virtiofsd.DescriptorChain.Agreement.{Reads, read_exact-Reads, Writes, write_all-Writes}

abbrev chain : DescriptorChainConsumer ℕ
chain = record { buffers = (10 ∷ 11 ∷ []) ∷ [] ∷ (12 ∷ 13 ∷ 14 ∷ []) ∷ []; bytes_consumed = 0 }

reads_over_slices :
    read_exact 3 chain
    ≡ ((ok tt, 10 ∷ 11 ∷ 12 ∷ []), record { buffers = (13 ∷ 14 ∷ []) ∷ []; bytes_consumed = 3 })
unfolding read_exact access_all access copied copy_out effect_of more consume consume_chosen
    consumed checked_add advance chosen
reads_over_slices = refl

-- The slices that `consume` hands out hold more than the 3 bytes that are wanted.
chosen_exceeds : bytes_in (chosen 3 0 chain.buffers) ≡ 5
unfolding bytes_in chosen
chosen_exceeds = refl

chain-InUsize : chain.bytes_consumed + length (flat chain.buffers) < 18446744073709551616
unfolding flat
chain-InUsize = omega arith

read_exact-Reads_example : Reads 3 chain (read_exact 3 chain)
read_exact-Reads_example = read_exact-Reads 3 chain chain-InUsize

abbrev five : Writer
five = record { room = 5; out = [] }

five_places : 5 ≡ length (flat chain.buffers)
unfolding flat
five_places = refl

write_all-Writes_example :
    Writes (1 ∷ 2 ∷ 3 ∷ 4 ∷ 5 ∷ 6 ∷ []) five chain (write_all (1 ∷ 2 ∷ 3 ∷ 4 ∷ 5 ∷ 6 ∷ []) chain)
write_all-Writes_example =
    write_all-Writes (1 ∷ 2 ∷ 3 ∷ 4 ∷ 5 ∷ 6 ∷ []) five chain chain-InUsize five_places

writes_over_slices : write_all (1 ∷ 2 ∷ 3 ∷ []) chain ≡ (
  (ok tt, (10, 1) ∷ (11, 2) ∷ (12, 3) ∷ []),
  record { buffers = (13 ∷ 14 ∷ []) ∷ []; bytes_consumed = 3 },
)
unfolding reads_over_slices write_all copied_to
writes_over_slices = refl

-- A file that takes all slices and keeps the number of bytes written.
abbrev taking : File ℕ
taking = record { State = ℕ; access_at = λ bufs off st. (ok (bytes_in bufs), st + bytes_in bufs) }

zero_copy-Transferred_example : Transferred taking 3 0 (zero_copy taking 3 100 chain 0)
zero_copy-Transferred_example = zero_copy-Transferred taking 3 100 chain 0

-- A transfer of 3 bytes writes 5 and then fails.
writes_too_much :
    zero_copy taking 3 100 chain 0
    ≡ some (err other, (record { buffers = []; bytes_consumed = 5 }, 5))
unfolding zero_copy zero_copy_on moved_on advanced access_file after consume consume_chosen consumed
    checked_add advance chosen bytes_in
writes_too_much = refl
