-- ===== src/Telegram/Paginator.antt =====
-- pkg/telegram/paginator.go. A page number starts at 1.
use telekube.Base.{
  ℕ, ◌+◌, ◌-◌, ◌*◌, ◌/◌, ◌%◌, String, Bool, false, List, [], length, take, drop, leb, ltb,
  if◌then◌else◌, ◌==◌, nat_keyed, Option, none, some,
}

pub record Paginator : Type 0 where
  pub items : List String
  pub page_size : ℕ
  pub current : ℕ

-- A page size that is not positive is 0 here.
unfoldable pub new_paginator : List String → ℕ → Paginator
new_paginator items page_size = record {
  items = items;
  page_size = if leb page_size 0 then 8 else page_size;
  current = 1;
}

unfoldable pub total_pages : Paginator → ℕ
total_pages p =
    let n = length p.items in
    if n == 0 then 1 else if ltb 0 (n % p.page_size) then n / p.page_size + 1 else n / p.page_size

-- The items from `start` on, as many as a page has, and whether more follow.
unfoldable pub window : List String → ℕ → ℕ → List String × Bool
window items page_size start =
    let n = length items in
    if leb n start
    then ([], false)
    else let stop = if ltb n (start + page_size) then n else start + page_size in
      (take (stop - start) (drop start items), ltb stop n)

unfoldable pub page : Paginator → List String × Bool
unfolding window
page p = window p.items p.page_size ((p.current - 1) * p.page_size)

-- The pages that the buttons of `Keyboard` lead to, if they are shown.
unfoldable pub prev : Paginator → Option ℕ
prev p = if ltb 1 p.current then some (p.current - 1) else none

unfoldable pub next : Paginator → Option ℕ
unfolding total_pages
next p = if ltb p.current (total_pages p) then some (p.current + 1) else none
