-- ===== src/Tests.antt =====
-- The definitions at concrete inputs, and each theorem's conditions met by one.
mod Shop
mod Transfers
mod Sessions
mod Requests
mod Rows
mod Browsing
mod Folders
mod Days
mod Bucket
mod Browser
mod Pages
mod Lists
mod Polling
mod Tables
mod Scroll
mod Levels
