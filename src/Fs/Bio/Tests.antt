-- ===== src/Fs/Bio/Tests.antt =====
-- The buffer cache on concrete inputs.
use base_exp.Base.{
  ℕ, ◌+◌, ◌^◌, ◌<◌, ◌≡◌, ◌≢◌, ◌⊎◌, refl, true, false, ◌==◌, if◌then◌else◌, none, List, [], ◌∷◌,
  length, arith, has, Run, done, panic, asleep, out_of_fuel, Returns,
}
use base_exp.Fs.Bio.{
  Bcache, set_buf, binit, nbuf, find_cached, find_unused, take_buf, bread, bwrite, brelse,
  unlink_buf, bget, acquire_buf,
}
use base_exp.Fs.Bio.Read.{IsWell, IsTaken, IsFull, IsRead, take_buf-IsTaken, bread-IsRead}
use base_exp.Fs.Bio.Release.{IsReleased, brelse-IsReleased, bwrite-IsWell}
use base_exp.Fs.Bio.Order.{IsLeast, binit-IsWell, take_buf-IsLeast}

-- Each block holds its own numbers.
abbrev disk : ℕ → ℕ → List ℕ
disk dev blockno = dev ∷ blockno ∷ []

abbrev started : Bcache
started = binit disk

binit-IsWell_example :
    IsWell started
    × (length started.order ≡ nbuf)
    × ((i : ℕ)
        → i < nbuf
        → (has i started.order ≡ true)
          × ((started.buf i).refcnt ≡ 0)
          × ((started.buf i).locked ≡ false)
          × ((started.buf i).valid ≡ false))
binit-IsWell_example = binit-IsWell disk

started_small : (i : ℕ) → (started.buf i).refcnt + 1 < 2 ^ 32
unfolding binit
started_small i = omega arith

bread-IsRead_example :
    ((i : ℕ) × (t : Bcache) × (bread 7 1 5 started ≡ done i t) × IsRead 7 1 5 started i t)
    ⊎ ((i : ℕ) × (s : Bcache) × (bread 7 1 5 started ≡ asleep)
        × (take_buf 1 5 started ≡ done i s)
        × ((s.buf i).locked ≡ true)
        × IsTaken 1 5 started i s)
    ⊎ ((bread 7 1 5 started ≡ panic "bget: no buffers") × IsFull 1 5 started)
bread-IsRead_example = bread-IsRead 7 1 5 started (binit-IsWell disk).0 (omega arith) started_small

take_buf-IsTaken_example :
    ((i : ℕ) × (t : Bcache) × (take_buf 1 5 started ≡ done i t) × IsTaken 1 5 started i t)
    ⊎ ((take_buf 1 5 started ≡ panic "bget: no buffers") × IsFull 1 5 started)
take_buf-IsTaken_example = take_buf-IsTaken 1 5 started (binit-IsWell disk).0 started_small

-- Buffers 4 and 3, the first locked by process 7, the second unused.
abbrev pair : Bcache
pair = record {
  buf = λ i.
      if i == 4
      then record {
        valid = true;
        dev = 1;
        blockno = 5;
        locked = true;
        pid = 7;
        refcnt = 1;
        contents = disk 1 5;
      }
      else record {
        valid = false;
        dev = 0;
        blockno = 0;
        locked = false;
        pid = 0;
        refcnt = 0;
        contents = [];
      };
  order = 3 ∷ 4 ∷ [];
  disk = disk;
}

pair-IsWell : IsWell pair
pair-IsWell = record {
  distinct = (refl, (refl, tt));
  unique = λ i j memi memj pos. ground arith;
  counted = λ i mem. ground arith;
  coherent = λ i mem pos. ground arith;
}

brelse-IsReleased_example : Returns (λ _ t. IsReleased pair 4 t) (brelse 7 4 pair)
brelse-IsReleased_example =
    brelse-IsReleased 7 4 pair pair-IsWell refl refl (λ _. refl) (omega arith) (omega arith)

bwrite-IsWell_example :
    Returns
      (λ _ t.
        IsWell t
        × (t.disk 1 5 ≡ disk 1 5)
        × ((d n : ℕ) → (1 ≡ d → 5 ≢ n) → t.disk d n ≡ disk d n)
        × (t.buf ≡ pair.buf)
        × (t.order ≡ pair.order))
      (bwrite 7 4 pair)
bwrite-IsWell_example = bwrite-IsWell 7 4 pair pair-IsWell refl (omega arith) refl

-- Block 6 takes buffer 3.
abbrev recycled : Bcache
recycled = record pair {
  buf =
      set_buf pair.buf 3 (record (pair.buf 3) { dev = 1; blockno = 6; valid = false; refcnt = 1 });
}

take_buf-pair : take_buf 1 6 pair ≡ done 3 recycled
unfolding take_buf find_cached find_unused
take_buf-pair = refl

absent_pair : find_cached pair.buf 1 6 pair.order ≡ none
unfolding find_cached
absent_pair = refl

take_buf-IsLeast_example : IsLeast pair.buf 3 pair.order × ((pair.buf 3).refcnt ≡ 0)
take_buf-IsLeast_example = take_buf-IsLeast 1 6 3 pair recycled absent_pair take_buf-pair

-- The last `brelse` of buffer 4 puts it in front.
order_of : {A : Type 0} → Run Bcache A → List ℕ
order_of (done a t) = t.order
order_of (panic why) = []
order_of asleep = []
order_of out_of_fuel = []

brelse-pair : order_of (brelse 7 4 pair) ≡ 4 ∷ 3 ∷ []
unfolding order_of brelse unlink_buf
brelse-pair = refl

-- A process that waits for a locked buffer.
bread-pair : bread 8 1 5 pair ≡ asleep
unfolding bread bget take_buf find_cached acquire_buf
bread-pair = refl
