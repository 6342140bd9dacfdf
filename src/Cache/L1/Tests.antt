-- ===== src/Cache/L1/Tests.antt =====
-- Runs of the cache.
use website_go_based.Base.{ℕ, ◌+◌, ◌≡◌, refl, none, some, [], map, length, first}
use website_go_based.Cache.L1.{L1Store, Product, new_l1_store, put, get, delete, clear, snapshot}
use website_go_based.Cache.L1.Links.{Linked, values}
use website_go_based.Cache.L1.Reference.{lru_get, lru_put, lru_delete}
use website_go_based.Cache.L1.Steps.{Agrees, put-Agrees, l1_is_lru, new_l1_store-Linked}

abbrev product : ℕ → Product
product k = record { id = k; name = "book"; category = "books"; version = 1 }

abbrev two_books : L1Store
two_books = (put (product 2) 6 (put (product 1) 5 (new_l1_store 2 100)).0).0

two_books-Linked : Linked two_books
two_books-Linked =
    (put-Agrees (product 2) 6 (put (product 1) 5 (new_l1_store 2 100)).0
      (put-Agrees (product 1) 5 (new_l1_store 2 100) (new_l1_store-Linked 2 100)).0).0

-- The third product puts out the first.
evicts_test : (put (product 3) 7 two_books).1 ≡ (107, some (product 1))
unfolding put new_l1_store
evicts_test = refl

expires_test : (get 1 105 two_books).1 ≡ none
unfolding get put new_l1_store first
expires_test = refl

snapshot_test : length (snapshot 105 two_books).1 ≡ 1
unfolding snapshot put new_l1_store
snapshot_test = refl

l1_is_lru_example :
    ((k now : ℕ) → Agrees (get k now two_books) (lru_get k now (values two_books.recency)))
    × ((p : Product) (now : ℕ)
        → Agrees (put p now two_books) (
            lru_put
              (record { product = p; expires_at = now + two_books.ttl; last_accessed_at = now })
              two_books.maximum
              (values two_books.recency)))
    × ((k : ℕ) → Agrees (delete k two_books) (lru_delete k (values two_books.recency)))
    × Agrees (clear two_books) ([], map (λ v. v.product) (values two_books.recency))
l1_is_lru_example = l1_is_lru two_books two_books-Linked
