-- ===== src/Examples/Layer.antt =====
-- A block layer whose queue is a list.
use sa_wa.Base.{
  ℕ, zero, suc, ◌<◌, ◌≡◌, sym, ap, Bool, false, Option, none, some, List, [], ◌∷◌, arith, replicate,
}
use mathlib.Core.Option.{some-injective, none-ne-some}
use sa_wa.Driver.Queue.{BlockLayer}

-- A request of the list: its identity, how many parts follow the current one, and whether it is a
-- file system request.
pub record Item : Type 0 where
  pub number : ℕ
  pub more : ℕ
  pub fs : Bool

abbrev pub fetch : List Item → List Item × Option Item
fetch [] = ([], none)
fetch (r ∷ rs) = (rs, some r)

abbrev pub end_part : ℕ → Item → Option Item
end_part zero r = none
end_part (suc n) r = some (record r { more = n })

pub end_part-some :
    (n : ℕ) (r r' : Item) → end_part n r ≡ some r' → (r'.more < n) × (r'.number ≡ r.number)
end_part-some zero r r' e = absurd (none-ne-some r' e)
end_part-some (suc n) r r' e =
    let f = some-injective (record r { more = n }) r' e in
    (omega (arith, ap (λ (x : Item). x.more) f), ap (λ (x : Item). x.number) (sym f))

abbrev pub list_layer : BlockLayer
list_layer = record {
  Queue = List Item;
  Request = Item;
  waiting = λ q. q;
  parts = λ r. r.more;
  carried = λ r. r.number ∷ [];
  blk_fetch_request = fetch;
  is_fs = λ r. r.fs;
  blk_rq_pos = λ r. r.number;
  blk_rq_cur_sectors = λ r. 1;
  buffer = λ r. replicate 512 0;
  is_write = λ r. false;
  blk_end_request_cur = λ r ret. end_part r.more r;
  fetch_empty = λ q e. ap (λ x. (fetch x).1) e;
  fetch_stays = λ q e. ap (λ x. (fetch x).0) e;
  fetch_first = λ q r rs e. ap (λ x. (fetch x).1) e;
  fetch_rest = λ q r rs e. ap (λ x. (fetch x).0) e;
  end_parts = λ r r' ret e. (end_part-some r.more r r' e).0;
  end_carried = λ r r' ret e. ap (λ n. n ∷ []) (end_part-some r.more r r' e).1;
}
