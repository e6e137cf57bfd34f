-- ===== src/Tests.antt =====
-- Concrete runs: each module applies theorems of one component to small inputs.
mod Caches
mod Logins
mod Filters
mod Policies
mod Proxies
mod Tokens
mod Web
mod Providers
mod Connect
mod Ingresses
mod Containers
