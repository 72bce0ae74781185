-- ===== src/Vfs/Examples.antt =====
-- The operations on a file at a world with one file of five bytes, which others empty during the
-- first of sixteen attempts.
use origofs.Base.{
  ℕ, ◌^◌, ◌<◌, ◌≡◌, refl, List, [], ◌∷◌, none, some, length, take, drop, replicate, ok, ◌==◌,
  if◌then◌else◌, text_discrete, arith,
}
use origofs.Format.{decode_with, version_of, tagged, header}
use origofs.Chunk.{
  encode_chunks, encode_manifest, decode_chunks, total_len, decode_body, decode_manifest_v1,
  decode_manifest,
}
use origofs.Body.{load_manifest}
use origofs.Body.Upload.{Stored}
use origofs.Body.Sample.{Objects, in_memory, in_memory-Works}
use origofs.Body.Examples.{three_objects, five, five_bytes}
use origofs.Vfs.{Inode, World, VfsCalls, vfs_read}
use origofs.Vfs.Attempts.{FileHas}
use origofs.Vfs.Changes.{vfs_read-FileHas}

abbrev five_inode : Inode
five_inode = record { content = some (2 ∷ replicate 31 0); size = 5 }

abbrev no_bytes : Inode
no_bytes = record { content = none; size = 0 }

abbrev a_world : World Objects
a_world = record {
  contents = three_objects;
  inodes = λ j. if j == 1 then some five_inode else none;
}

-- Others empty the file 1 in the attempt behind which fifteen are left, at both points.
abbrev disturb : ℕ → World Objects → World Objects
disturb k w = record {
  contents = w.contents;
  inodes = λ j. if j == 1 then (if k == 15 then some no_bytes else w.inodes 1) else w.inodes j;
}

abbrev calls : VfsCalls Objects
calls = record {
  body = in_memory;
  quota = record { bytes = some 1000; inodes = none };
  usage = λ w. record { inodes = 1; bytes = 5 };
  meanwhile = disturb;
  others = disturb;
}

loaded : load_manifest in_memory three_objects (2 ∷ replicate 31 0) ≡ ok five
unfolding load_manifest decode_manifest decode_with version_of tagged decode_manifest_v1 decode_body
    decode_chunks total_len encode_manifest encode_chunks header text_discrete
loaded = refl

five-Stored : Stored in_memory three_objects five_inode.content five_bytes
five-Stored = (
  five,
  loaded,
  (
    (
      1 ∷ 2 ∷ 3 ∷ [],
      4 ∷ 5 ∷ [],
      (refl, refl, record { hash_len = refl; len_fits = omega arith }),
      (
        4 ∷ 5 ∷ [],
        [],
        (refl, refl, record { hash_len = refl; len_fits = omega arith }),
        refl,
        refl,
      ),
      refl,
    ),
    refl,
    omega arith,
  ),
)

-- Whatever is known of the one inode is known of an inode that is equal to it.
abbrev SoundAt : Objects → Inode → Type 0
SoundAt os n =
    (b : List ℕ) × Stored in_memory os n.content b × (n.size ≡ length b) × (length b < 2 ^ 64)

five-FileHas : FileHas calls a_world 1 five_bytes
five-FileHas = (five_inode, refl, five-Stored, refl, omega arith)

vfs_read-FileHas_example : vfs_read calls a_world 1 3 9 ≡ ok (take 9 (drop 3 five_bytes))
vfs_read-FileHas_example =
    vfs_read-FileHas calls in_memory-Works a_world 1 3 9 five_bytes five-FileHas
